-- ===== src/Engine/Fallback/Leaves.antt =====
-- Which processes `StartWithFallback` leaves.
use bypath.Base.{
  ℕ, suc, nat_eq, Bool, not, ◌&&◌, ◌==◌, String, List, [], ◌∷◌, ◌++◌, some, select, Result, ok, err,
  ◌≡◌, refl, sym, subst, inl, inr, Bool-cases, Result-cases,
}
use bypath.Profile.{Link}
use bypath.Config.{FallbackConfig}
use bypath.Engine.Fallback.{
  Launch, AttemptRecord, start_process, try_engine, killed, processes_behind, processes_from,
  processes_of, attempts_from, start_with_fallback, engine_order,
}

-- One process is left behind a success, and none behind a failure.
abbrev pub Leaves {ℓ κ} : {E : Type ℓ} {A : Type κ} → Result E A → List ℕ → Type 0
Leaves (ok a) running = (j : ℕ) × (running ≡ j ∷ [])
Leaves (err e) running = running ≡ []

killed-one : (i : ℕ) → killed i (i ∷ []) ≡ []
unfolding select
killed-one i = rw ((nat_eq.test_iff i i).1 refl) refl

processes_behind-Leaves :
    (launch : Launch) (link : Link) (name : String) (i : ℕ)
    → Leaves (try_engine launch link name) (processes_behind launch link name i [])
unfolding processes_behind try_engine
processes_behind-Leaves launch link name i = elim (Result-cases (start_process launch link name)) [
  | inr (e, f) ↦ rw (f, try_engine, processes_behind) refl
  | inl ((proc, file), f) ↦ elim (Bool-cases (launch.port_opens proc)) [
    | inl h ↦ rw (f, try_engine, processes_behind) (rw (h, processes_behind) (i, refl))
    | inr h ↦ rw (f, try_engine, processes_behind) (rw (h, processes_behind) (killed-one i))
  ]
]

module _ (enabled : Bool) (launch : ℕ → Launch) (link : Link) where
  processes_from-Leaves :
      (i : ℕ) (past : List AttemptRecord) (order : List String)
      → Leaves
          (attempts_from enabled launch link i past order)
          (processes_from enabled launch link i [] order)
  unfolding attempts_from processes_from
  processes_from-Leaves i past [] = refl
  processes_from-Leaves i past (name ∷ names) =
      let behind = processes_behind-Leaves (launch i) link name i in
      elim (Result-cases (try_engine (launch i) link name)) [
        | inl (found, e) ↦ rw (e, attempts_from, processes_from) (rw e at behind)
        | inr (failure, e) ↦
            let gone : processes_behind (launch i) link name i [] ≡ [] = (rw e at behind) in
            elim (Bool-cases (not enabled && i == 0)) [
              | inl off ↦ rw (e, attempts_from, processes_from, off) gone
              | inr on ↦
                  rw (e, attempts_from, processes_from, on)
                    (subst
                      (λ (running : List ℕ).
                        Leaves
                          (attempts_from enabled launch link (suc i)
                            (past ++ (record { engine_name = name; failure = some failure } ∷ []))
                            names)
                          (processes_from enabled launch link (suc i) running names))
                      (sym gone)
                      (processes_from-Leaves (suc i)
                        (past ++ (record { engine_name = name; failure = some failure } ∷ []))
                        names))
            ]
      ]

pub processes_of-Leaves :
    (cfg : FallbackConfig) (launch : ℕ → Launch) (link : Link) (preferred : String)
    → Leaves
        (start_with_fallback cfg launch link preferred)
        (processes_of cfg launch link preferred)
unfolding start_with_fallback processes_of
processes_of-Leaves cfg launch link preferred =
    processes_from-Leaves cfg.enabled launch link 0 [] (engine_order cfg preferred)
