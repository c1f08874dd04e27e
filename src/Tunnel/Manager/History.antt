-- ===== src/Tunnel/Manager/History.antt =====
-- The calls of the manager of tunnels and the ends of processes, in any order.
use bypath.Base.{
  arith, ℕ, String, string_eq, true, not, ◌&&◌, [], ◌≡◌, inl, inr, if◌then◌else◌, ◌==◌, Bool-cases,
  nat_eq,
}
use bypath.Profile.{Link}
use bypath.Tunnel.Manager.{
  Manager, Outcome, runs, start_tunnel, start_ssh_tunnel, stop_tunnel, get_status, process_exits,
  resolve_engine, needs_sshpass,
}
use bypath.Tunnel.Manager.Held.{is_loose, Held, Kept}
use bypath.Tunnel.Manager.Orphans.{
  with_tunnel-Kept, exits-Kept, failed-Kept, stop_tunnel-Kept, get_status-Kept,
}

pub data Step : Manager → Manager → Type 0 where
  start :
      (out : Outcome) (name : String) (link : Link) (forced : String) {m : Manager}
      → Step m (start_tunnel out name link forced m).0
  stop : (name : String) {m : Manager} → Step m (stop_tunnel name m).0
  status : {m : Manager} → Step m (get_status m).0
  exits : (pid : ℕ) {m : Manager} → Step m (record m { processes = process_exits pid m.processes })

-- `NewManager`
abbrev pub no_tunnels : Manager
no_tunnels = record { tunnels = []; processes = record { active = []; cancelled = []; next = 0 } }

pub data Reached : Manager → Type 0 where
  fresh : Reached no_tunnels
  next : {m n : Manager} → Reached m → Step m n → Reached n

module _ (out : Outcome) (name : String) (link : Link) (m : Manager) (kept : Kept m) where
  start_ssh_tunnel-Kept : Kept (start_ssh_tunnel out name link m).0
  unfolding start_ssh_tunnel
  start_ssh_tunnel-Kept = elim (Bool-cases (runs name m.tunnels)) [
    | inl e ↦ rw e kept
    | inr e ↦ rw e (elim (Bool-cases (not (out.has_engine "ssh"))) [
      | inl f ↦ rw f kept
      | inr f ↦ rw f (elim (Bool-cases (needs_sshpass link && not out.has_sshpass)) [
        | inl g ↦ rw g kept
        | inr g ↦ rw g (elim (Bool-cases (not out.starts)) [
          | inl h ↦ rw h kept
          | inr h ↦ rw h (elim (Bool-cases out.port_opens) [
            | inl k ↦ rw k (with_tunnel-Kept name link "ssh" m e kept)
            | inr k ↦ rw k (failed-Kept m kept)
          ])
        ])
      ])
    ])
  ]

  start_tunnel-Kept : (forced : String) → Kept (start_tunnel out name link forced m).0
  unfolding start_tunnel
  start_tunnel-Kept forced =
      let engine = if forced == "" then resolve_engine link.protocol else forced in
      elim (Bool-cases (link.protocol == "ssh")) [
        | inl e ↦ rw e start_ssh_tunnel-Kept
        | inr e ↦ rw e (elim (Bool-cases (runs name m.tunnels)) [
          | inl f ↦ rw f kept
          | inr f ↦ rw f (elim (Bool-cases (not (out.has_engine engine))) [
            | inl g ↦ rw g kept
            | inr g ↦ rw g (elim (Bool-cases (not out.writes_config)) [
              | inl h ↦ rw h kept
              | inr h ↦ rw h (elim (Bool-cases (not out.starts)) [
                | inl k ↦ rw k kept
                | inr k ↦ rw k (with_tunnel-Kept name link engine m f kept)
              ])
            ])
          ])
        ])
      ]

Step-Kept : {m n : Manager} → Step m n → Kept m → Kept n
Step-Kept (start out name link forced {m}) kept = start_tunnel-Kept out name link m kept forced
Step-Kept (stop name {m}) kept = stop_tunnel-Kept name m kept
Step-Kept (status {m}) kept = get_status-Kept m kept
Step-Kept (exits pid {m}) kept = exits-Kept pid m kept

Reached-Kept : {m : Manager} → Reached m → Kept m
Reached-Kept fresh = record { held = λ pid loose. absurd (ground (arith, loose)); entries = tt }
Reached-Kept (next before step) = Step-Kept step (Reached-Kept before)

-- After any calls of StartTunnel, StopTunnel and GetStatus with any outcomes, one behind the other, with
-- any ends of processes between them and without calls for chains, each process that the manager has
-- started, that runs and that nobody has stopped belongs to a tunnel of the manager, so that it can be
-- stopped by its name.
pub Reached-Held :
    {m : Manager} → Reached m → (pid : ℕ) → is_loose m.processes pid ≡ true → Held pid m.tunnels
Reached-Held reached pid loose = (Reached-Kept reached).held pid loose
