-- ===== src/Tunnel/Chains/Starts.antt =====
-- How the start of a tunnel ends, and which processes run unstopped then.
use bypath.Base.{
  arith, ℕ, String, string_eq, nat_eq, true, false, not, ◌&&◌, ◌==◌, if◌then◌else◌, [], ◌∷◌, Option,
  none, some, lookup, insert, lookup-insert, Dict, ◌≡◌, ◌<◌, ◌≤◌, refl, sym, ap, ◌∙◌, subst,
  Bool-cases, inl, inr, nat_beq_iff, eq_iff,
}
use bypath.Profile.{Link}
use bypath.Tunnel.Manager.{
  Tunnel, Processes, Manager, Outcome, Error, runs, spawn, stop_process, with_tunnel, start_tunnel,
  start_ssh_tunnel, resolve_engine, needs_sshpass,
}
use bypath.Tunnel.Manager.Held.{is_loose, spawn-loose, stop-loose}
use bypath.Tunnel.Chains.{process_of}

-- Each process that runs unstopped has a number below the next one.
abbrev pub IsNumbered : Processes → Type 0
IsNumbered ps = (q : ℕ) → is_loose ps q ≡ true → q < ps.next

pub next_idle : (ps : Processes) → IsNumbered ps → is_loose ps ps.next ≡ false
next_idle ps numbered = elim (Bool-cases (is_loose ps ps.next)) [
  | inl e ↦ absurd (ground (arith, numbered ps.next e))
  | inr e ↦ e
]

pub spawn-IsNumbered : (ps : Processes) → IsNumbered ps → IsNumbered (spawn ps)
spawn-IsNumbered ps numbered q loose = elim (Bool-cases (ps.next == q)) [
  | inl e ↦ ground (arith, (nat_beq_iff ps.next q).0 e)
  | inr e ↦ ground (arith, numbered q (sym (spawn-loose ps q e) ∙ loose))
]

pub process_of-found :
    (name : String) (m : Manager) (t : Tunnel)
    → lookup name m.tunnels ≡ some t
    → process_of name m ≡ t.process ∷ []
process_of-found name m t e =
    ap (λ (o : Option Tunnel). elim o [ none ↦ [] | some t ↦ t.process ∷ [] ]) e

pub lookup-own {ℓ} :
    {V : Type ℓ} (name : String) (v : V) (d : Dict V) → lookup name (insert name v d) ≡ some v
lookup-own name v d = lookup-insert name name v d ∙ rw ((eq_iff name name).1 refl) refl

-- How the start of a tunnel ends.
pub data Starts (name : String) (link : Link) (m : Manager) : Manager × Option Error → Type 0 where
  failed :
      {n : Manager} {e : Error}
      → ((q : ℕ) → is_loose n.processes q ≡ is_loose m.processes q)
      → m.processes.next ≤ n.processes.next
      → Starts name link m (n, some e)
  made :
      {n : Manager} (t : Tunnel)
      → t.link ≡ link
      → t.process ≡ m.processes.next
      → n.tunnels ≡ insert name t m.tunnels
      → n.processes ≡ spawn m.processes
      → Starts name link m (n, none)

module _ (out : Outcome) (name : String) (link : Link) (m : Manager)
    (numbered : IsNumbered m.processes) where
  unchanged : {e : Error} → Starts name link m (m, some e)
  unchanged = failed (λ q. refl) (omega arith)

  with_tunnel-Starts : (engine : String) → Starts name link m (with_tunnel name link engine m, none)
  with_tunnel-Starts engine = made _ refl refl refl refl

  dropped-next : m.processes.next ≤ (stop_process m.processes.next (spawn m.processes)).next
  unfolding stop_process
  dropped-next = rw ((nat_beq_iff m.processes.next m.processes.next).1 refl) (omega arith)

  -- a process that was stopped at once
  dropped :
      (q : ℕ)
      → is_loose (stop_process m.processes.next (spawn m.processes)) q ≡ is_loose m.processes q
  dropped q = elim (Bool-cases (m.processes.next == q)) [
    | inl e ↦
        let idle =
          subst (λ k. is_loose m.processes k ≡ false) ((nat_beq_iff m.processes.next q).0 e)
            (next_idle m.processes numbered) in
        ground (arith, stop-loose m.processes.next (spawn m.processes) q, e, idle)
    | inr e ↦
        ground
          (arith, stop-loose m.processes.next (spawn m.processes) q, e, spawn-loose m.processes q e)
  ]

  start_ssh_tunnel-Starts : Starts name link m (start_ssh_tunnel out name link m)
  unfolding start_ssh_tunnel
  start_ssh_tunnel-Starts = elim (Bool-cases (runs name m.tunnels)) [
    | inl e ↦ rw e unchanged
    | inr e ↦ rw e (elim (Bool-cases (not (out.has_engine "ssh"))) [
      | inl f ↦ rw f unchanged
      | inr f ↦ rw f (elim (Bool-cases (needs_sshpass link && not out.has_sshpass)) [
        | inl g ↦ rw g unchanged
        | inr g ↦ rw g (elim (Bool-cases (not out.starts)) [
          | inl h ↦ rw h unchanged
          | inr h ↦ rw h (elim (Bool-cases out.port_opens) [
            | inl k ↦ rw k (with_tunnel-Starts "ssh")
            | inr k ↦ rw k (failed dropped dropped-next)
          ])
        ])
      ])
    ])
  ]

  pub start_tunnel-Starts :
      (forced : String) → Starts name link m (start_tunnel out name link forced m)
  unfolding start_tunnel
  start_tunnel-Starts forced =
      let engine = if forced == "" then resolve_engine link.protocol else forced in
      elim (Bool-cases (link.protocol == "ssh")) [
        | inl e ↦ rw e start_ssh_tunnel-Starts
        | inr e ↦ rw e (elim (Bool-cases (runs name m.tunnels)) [
          | inl f ↦ rw f unchanged
          | inr f ↦ rw f (elim (Bool-cases (not (out.has_engine engine))) [
            | inl g ↦ rw g unchanged
            | inr g ↦ rw g (elim (Bool-cases (not out.writes_config)) [
              | inl h ↦ rw h unchanged
              | inr h ↦ rw h (elim (Bool-cases (not out.starts)) [
                | inl k ↦ rw k unchanged
                | inr k ↦ rw k (with_tunnel-Starts engine)
              ])
            ])
          ])
        ])
      ]
