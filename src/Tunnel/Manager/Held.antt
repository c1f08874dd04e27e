-- ===== src/Tunnel/Manager/Held.antt =====
-- The processes that the manager of tunnels has started and not stopped, and the tunnels that hold
-- them.
use bypath.Base.{
  ℕ, ◌<◌, String, string_eq, nat_eq, Bool, true, false, not, ◌&&◌, some, List, [], ◌∷◌, select, any,
  Dict, lookup, insert, ◌==◌, ◌≡◌, refl, sym, ap, ◌∙◌, ◌⊎◌, inl, inr, Bool-cases, All, Some, arith,
  nat_beq_iff,
}
use bypath.Tunnel.Manager.{running, Tunnel, Processes, Manager, spawn, stop_process, process_exits}

-- A process runs, and nobody has stopped it.
abbrev pub is_loose : Processes → ℕ → Bool
is_loose ps pid = any (λ p. p == pid) ps.active && not (any (λ p. p == pid) ps.cancelled)

-- a tunnel of the map has the process
abbrev pub Held : ℕ → Dict Tunnel → Type 0
Held pid tunnels = Some (λ (e : String × Tunnel). e.1.process ≡ pid) tunnels

pub spawn-loose :
    (ps : Processes) (q : ℕ) → (ps.next == q) ≡ false → is_loose (spawn ps) q ≡ is_loose ps q
spawn-loose ps q h = rw h refl

pub stop-loose :
    (p : ℕ) (ps : Processes) (q : ℕ)
    → is_loose (stop_process p ps) q ≡ (is_loose ps q && not (p == q))
unfolding stop_process
stop-loose p ps q = elim (Bool-cases (any (λ x. x == p) ps.active)) [
  | inl e ↦ rw e (ground arith)
  | inr e ↦ elim (Bool-cases (p == q)) [
    | inl f ↦
        rw (e, f)
          (ap (λ b. b && not (any (λ x. x == q) ps.cancelled))
              (ap (λ k. any (λ x. x == k) ps.active) (sym ((nat_beq_iff p q).0 f)) ∙ e)
            ∙ ground arith)
    | inr f ↦ rw (e, f) (ground arith)
  ]
]

select-any :
    (p q : ℕ) (xs : List ℕ)
    → any (λ x. x == q) (select (λ x. not (x == p)) xs) ≡ (any (λ x. x == q) xs && not (p == q))
unfolding select
select-any p q [] = refl
select-any p q (x ∷ xs) =
    ground (arith, select-any p q xs, nat_beq_iff x p, nat_beq_iff x q, nat_beq_iff p q)

pub exits-loose :
    (p : ℕ) (ps : Processes) (q : ℕ)
    → is_loose (process_exits p ps) q ≡ (is_loose ps q && not (p == q))
unfolding process_exits
exits-loose p ps q = ground (arith, select-any p q ps.active)

-- A tunnel of the map: it is running, or its process has ended or is stopped; and its process is older
-- than the next.
abbrev pub Entry : Processes → String × Tunnel → Type 0
Entry ps e = ((e.1.status ≡ running) ⊎ (is_loose ps e.1.process ≡ false)) × (e.1.process < ps.next)

pub record Kept (m : Manager) : Type 0 where
  pub held : (pid : ℕ) → is_loose m.processes pid ≡ true → Held pid m.tunnels
  pub entries : All (Entry m.processes) m.tunnels

pub insert-new : (name : String) (t : Tunnel) (d : Dict Tunnel) → Held t.process (insert name t d)
unfolding insert
insert-new name t [] = inl refl
insert-new name t ((key, u) ∷ d) = elim (Bool-cases (key == name)) [
  | inl e ↦ rw e (inl refl)
  | inr e ↦ rw e (inr (insert-new name t d))
]

pub insert-Held :
    (q : ℕ) (name : String) (t : Tunnel) (d : Dict Tunnel)
    → Held q d
    → Held q (insert name t d) ⊎ ((u : Tunnel) × (lookup name d ≡ some u) × (u.process ≡ q))
unfolding insert lookup
insert-Held q name t [] h = elim h [ ]
insert-Held q name t ((key, u) ∷ d) (inl same) = elim (Bool-cases (key == name)) [
  | inl e ↦ rw e (inr (u, refl, same))
  | inr e ↦ rw e (inl (inl same))
]
insert-Held q name t ((key, u) ∷ d) (inr more) = elim (Bool-cases (key == name)) [
  | inl e ↦ rw e (inl (inr more))
  | inr e ↦
      rw e
        (elim (insert-Held q name t d more) [ inl there ↦ inl (inr there) | inr found ↦ inr found ])
]
