-- ===== src/Tunnel/Manager/Orphans.antt =====
-- The calls of the manager of tunnels keep hold of every process.
use mathlib.Core.Option.{some-injective}
use bypath.Base.{
  ℕ, ◌<◌, String, string_eq, nat_eq, Bool, true, false, some, [], ◌∷◌, any, map, Dict, lookup, ◌==◌,
  ◌≡◌, refl, sym, ap, ◌∙◌, inl, inr, subst, Bool-cases, Option-cases, All, All-map, All-insert,
  lookup-All, arith, nat_beq_iff,
}
use bypath.Profile.{Link}
use bypath.Tunnel.Manager.{
  stopped, Tunnel, Processes, Manager, runs, is_running, spawn, stop_process, process_exits,
  with_tunnel, stop_tunnel, refreshed, get_status,
}
use bypath.Tunnel.Manager.Held.{
  is_loose, Held, spawn-loose, stop-loose, exits-loose, Entry, Kept, insert-new, insert-Held,
}

-- a tunnel that is not running has lost its process
not_loose :
    (ps : Processes) (name : String) (d : Dict Tunnel) (u : Tunnel)
    → All (Entry ps) d
    → lookup name d ≡ some u
    → runs name d ≡ false
    → is_loose ps u.process ≡ false
not_loose ps name d u h at idle = elim (lookup-All (Entry ps) name d at h).0 [
  | inl up ↦ ground (arith, rw (at, runs) at idle, ap is_running up)
  | inr ended ↦ ended
]

older : (ps : Processes) (e : String × Tunnel) → Entry ps e → Entry (spawn ps) e
older ps e (inl up, before) = (inl up, omega (arith, before))
older ps e (inr ended, before) =
    (inr (spawn-loose ps e.1.process (ground (arith, before)) ∙ ended), omega (arith, before))

pub with_tunnel-Kept :
    (name : String) (link : Link) (engine : String) (m : Manager)
    → runs name m.tunnels ≡ false
    → Kept m
    → Kept (with_tunnel name link engine m)
with_tunnel-Kept name link engine m idle kept = record {
  held = λ q loose. elim (Bool-cases (m.processes.next == q)) [
    | inl e ↦
        subst (λ k. Held k (with_tunnel name link engine m).tunnels)
          ((nat_beq_iff m.processes.next q).0 e) (insert-new name _ m.tunnels)
    | inr e ↦
        let before = sym (spawn-loose m.processes q e) ∙ loose in
        elim (insert-Held q name _ m.tunnels (kept.held q before)) [
          | inl there ↦ there
          | inr (u, at, same) ↦ ground (
            arith,
            before,
            subst (λ k. is_loose m.processes k ≡ false) same
                (not_loose m.processes name m.tunnels u kept.entries at idle),
          )
        ]
  ];
  entries =
      All-insert (Entry (spawn m.processes)) name _ m.tunnels
        (All-map (older m.processes) m.tunnels kept.entries) (inl refl, omega arith);
}

-- fewer processes are loose
fewer :
    (ps qs : Processes) (e : String × Tunnel)
    → ((q : ℕ) → is_loose qs q ≡ true → is_loose ps q ≡ true)
    → ps.next ≡ qs.next
    → Entry ps e
    → Entry qs e
fewer ps qs e less same (inl up, before) = (inl up, subst (λ n. e.1.process < n) same before)
fewer ps qs e less same (inr ended, before) = (
  inr (not_true (is_loose qs e.1.process) (λ h. ground (arith, less e.1.process h, ended))),
  subst (λ n. e.1.process < n) same before,
)
  where
    not_true : (b : Bool) → (b ≡ true → ⊥) → b ≡ false
    not_true true h = absurd (h refl)
    not_true false h = refl

fewer-Kept :
    (m : Manager) (qs : Processes)
    → ((q : ℕ) → is_loose qs q ≡ true → is_loose m.processes q ≡ true)
    → m.processes.next ≡ qs.next
    → Kept m
    → Kept (record m { processes = qs })
fewer-Kept m qs less same kept = record {
  held = λ q loose. kept.held q (less q loose);
  entries = All-map (λ e. fewer m.processes qs e less same) m.tunnels kept.entries;
}

stop-next : (p : ℕ) (ps : Processes) → ps.next ≡ (stop_process p ps).next
unfolding stop_process
stop-next p ps = elim (Bool-cases (any (λ x. x == p) ps.active)) [
  | inl e ↦ rw e refl
  | inr e ↦ rw e refl
]

pub exits-Kept :
    (p : ℕ) (m : Manager) → Kept m → Kept (record m { processes = process_exits p m.processes })
unfolding process_exits
exits-Kept p m kept =
    fewer-Kept m (process_exits p m.processes)
      (λ q loose. ground (arith, sym (exits-loose p m.processes q) ∙ loose)) refl kept

-- the start of an SSH tunnel whose port does not open
pub failed-Kept :
    (m : Manager)
    → Kept m
    → Kept (record m { processes = stop_process m.processes.next (spawn m.processes) })
failed-Kept m kept =
    let ps = m.processes in
    let after = stop_process ps.next (spawn ps) in
    record {
      held = λ q loose. elim (Bool-cases (ps.next == q)) [
        | inl e ↦ ground (arith, sym (stop-loose ps.next (spawn ps) q) ∙ loose, e)
        | inr e ↦ kept.held q (
            sym (spawn-loose ps q e)
            ∙ ground (arith, sym (stop-loose ps.next (spawn ps) q) ∙ loose))
      ];
      entries =
          All-map
            (λ e.
              fewer (spawn ps) after e
                (λ q loose. ground (arith, sym (stop-loose ps.next (spawn ps) q) ∙ loose))
                (stop-next ps.next (spawn ps)))
            m.tunnels (All-map (older ps) m.tunnels kept.entries);
    }

pub stop_tunnel-Kept : (name : String) (m : Manager) → Kept m → Kept (stop_tunnel name m).0
unfolding stop_tunnel
stop_tunnel-Kept name m kept = elim (Option-cases (lookup name m.tunnels)) [
  | inl e ↦ rw (e, stop_tunnel) kept
  | inr (t, e) ↦
      let ps = m.processes in
      let after = stop_process t.process ps in
      let dead : Tunnel = record t { status = stopped } in
      let less : (q : ℕ) → is_loose after q ≡ true → is_loose ps q ≡ true =
        λ q loose. ground (arith, sym (stop-loose t.process ps q) ∙ loose) in
      let gone : is_loose after t.process ≡ false =
        stop-loose t.process ps t.process ∙ ground (arith, nat_beq_iff t.process t.process) in
      rw (e, stop_tunnel)
        (record {
          held = λ q loose. elim (insert-Held q name dead m.tunnels (kept.held q (less q loose))) [
            | inl there ↦ there
            | inr (u, at, same) ↦
                let own = ap (λ (x : Tunnel). x.process) (some-injective u t (sym at ∙ e)) in
                ground (arith, loose, subst (λ k. is_loose after k ≡ false) (sym own ∙ same) gone)
          ];
          entries =
              All-insert (Entry after) name dead m.tunnels
                (All-map (λ x. fewer ps after x less (stop-next t.process ps)) m.tunnels
                  kept.entries)
                (
                  inr gone,
                  subst (λ n. t.process < n) (stop-next t.process ps)
                      (lookup-All (Entry ps) name m.tunnels e kept.entries).1,
                );
        })
]

refreshed-Entry :
    (ps : Processes) (key : String) (t : Tunnel)
    → Entry ps (key, t)
    → Entry ps (key, refreshed ps t)
unfolding refreshed
refreshed-Entry ps key t h = elim (Bool-cases (any (λ p. p == t.process) ps.active)) [
  | inl e ↦ rw e h
  | inr e ↦ rw e (inr (ground (arith, e)), h.1)
]

refreshed-process : (ps : Processes) (t : Tunnel) → (refreshed ps t).process ≡ t.process
unfolding refreshed
refreshed-process ps t = elim (Bool-cases (any (λ p. p == t.process) ps.active)) [
  | inl e ↦ rw e refl
  | inr e ↦ rw e refl
]

abbrev refresh_all : Processes → Dict Tunnel → Dict Tunnel
refresh_all ps = map (λ (e : String × Tunnel). (e.0, refreshed ps e.1))

refresh_all-Held : (ps : Processes) (q : ℕ) (d : Dict Tunnel) → Held q d → Held q (refresh_all ps d)
refresh_all-Held ps q [] h = h
refresh_all-Held ps q ((key, t) ∷ d) (inl same) = inl (refreshed-process ps t ∙ same)
refresh_all-Held ps q ((key, t) ∷ d) (inr more) = inr (refresh_all-Held ps q d more)

refresh_all-Entry :
    (ps : Processes) (d : Dict Tunnel) → All (Entry ps) d → All (Entry ps) (refresh_all ps d)
refresh_all-Entry ps [] h = tt
refresh_all-Entry ps ((key, t) ∷ d) (p, h) = (refreshed-Entry ps key t p, refresh_all-Entry ps d h)

pub get_status-Kept : (m : Manager) → Kept m → Kept (get_status m).0
unfolding get_status
get_status-Kept m kept = record {
  held = λ q loose. refresh_all-Held m.processes q m.tunnels (kept.held q loose);
  entries = refresh_all-Entry m.processes m.tunnels kept.entries;
}
