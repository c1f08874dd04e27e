-- ===== src/Engine/Fallback/Falls.antt =====
-- What `StartWithFallback` does with the engines of its order.
use bypath.Base.{
  ℕ, suc, ◌+◌, String, nat_eq, Bool, true, false, not, ◌&&◌, List, [], ◌∷◌, ◌++◌, ◌==◌, ltb, leb,
  ◌⊎◌, inl, inr, none, some, ◌≡◌, refl, sym, ap, ◌∙◌, Result, ok, err, Bool-cases, Result-cases,
  append_assoc, append-nil, length, arith,
}
use bypath.Profile.{Link}
use bypath.Config.{FallbackConfig}
use bypath.Engine.Fallback.{
  Launch, FallbackResult, AttemptRecord, try_engine, attempts_from, start_with_fallback,
  engine_order,
}

module _ (launch : ℕ → Launch) (link : Link) where
  -- Attempts number `i` and later at the engines of a list, which all fail, as they are recorded.
  pub data Failing : ℕ → List String → List AttemptRecord → Type 0 where
    no_more : {i : ℕ} → Failing i [] []
    one_more :
        {i : ℕ} {name : String} {names : List String} {e : String} {records : List AttemptRecord}
        → try_engine (launch i) link name ≡ err e
        → Failing (suc i) names records
        → Failing i (name ∷ names) (record { engine_name = name; failure = some e } ∷ records)

  -- How the loop from attempt `i` ends, with the attempts `past` before it.
  pub data Ends (enabled : Bool) (i : ℕ) (past : List AttemptRecord) (order : List String)
      : Result (List AttemptRecord) FallbackResult → Type 0 where
    running :
        (before after : List String) (records : List AttemptRecord) {j : ℕ} {name : String}
        {proc : String} {file : String} {all : List AttemptRecord}
        → order ≡ before ++ (name ∷ after)
        → Failing i before records
        → j ≡ i + length before
        → try_engine (launch j) link name ≡ ok (proc, file)
        → (enabled ≡ false → i ≡ 0 → length before ≡ 0)
        → all ≡ past ++ (records ++ (record { engine_name = name; failure = none } ∷ []))
        → Ends enabled i past order (
            ok (record {
              process = proc;
              config_file = file;
              engine_name = name;
              was_fallback = ltb 0 j;
              attempts = all;
            }))
    stopped :
        (tried left : List String) (records : List AttemptRecord) {all : List AttemptRecord}
        → order ≡ tried ++ left
        → Failing i tried records
        → (left ≡ []) ⊎ ((enabled ≡ false) × (i ≡ 0) × (length tried ≡ 1))
        → (enabled ≡ false → i ≡ 0 → leb (length tried) 1 ≡ true)
        → all ≡ past ++ records
        → Ends enabled i past order (err all)

  later :
      (enabled : Bool) (i : ℕ) (past : List AttemptRecord) (name : String) (names : List String)
      (e : String) {r : Result (List AttemptRecord) FallbackResult}
      → try_engine (launch i) link name ≡ err e
      → (not enabled && i == 0) ≡ false
      → Ends enabled
          (suc i)
          (past ++ (record { engine_name = name; failure = some e } ∷ []))
          names
          r
      → Ends enabled i past (name ∷ names) r
  later enabled i past name names e t on
        (running before after records {j} here failing at up single all) =
      running (name ∷ before) after (record { engine_name = name; failure = some e } ∷ records)
        (ap (λ ns. name ∷ ns) here) (one_more t failing) (omega (arith, at)) up
        (λ off first. ground (arith, on, off, first)) (all ∙ append_assoc past _ _)
  later enabled i past name names e t on (stopped tried left records here failing why single all) =
      stopped (name ∷ tried) left (record { engine_name = name; failure = some e } ∷ records)
        (ap (λ ns. name ∷ ns) here) (one_more t failing)
        (elim why [ inl none_left ↦ inl none_left | inr (off, at, one) ↦ ground (arith, at) ])
        (λ off first. ground (arith, on, off, first)) (all ∙ append_assoc past _ _)

  only : (enabled : Bool) (i : ℕ) → (not enabled && i == 0) ≡ true → (enabled ≡ false) × (i ≡ 0)
  only enabled i h = ground (arith, h)

  attempts_from-Ends :
      (enabled : Bool) (i : ℕ) (past : List AttemptRecord) (order : List String)
      → Ends enabled i past order (attempts_from enabled launch link i past order)
  unfolding attempts_from
  attempts_from-Ends enabled i past [] =
      stopped [] [] [] refl no_more (inl refl) (λ off first. refl) (sym (append-nil past))
  attempts_from-Ends enabled i past (name ∷ names) =
      elim (Result-cases (try_engine (launch i) link name)) [
        | inl ((proc, file), t) ↦
            rw (t, attempts_from)
              (running [] names [] refl no_more (omega arith) t (λ off first. refl) refl)
        | inr (e, t) ↦ elim (Bool-cases (not enabled && i == 0)) [
          | inl off ↦
              rw (t, attempts_from)
                (rw off (
                  stopped (name ∷ []) names (record { engine_name = name; failure = some e } ∷ [])
                    refl (one_more t no_more)
                    (inr ((only enabled i off).0, (only enabled i off).1, refl)) (λ _ first. refl)
                    refl))
          | inr on ↦
              rw (t, attempts_from)
                (rw on (
                  later enabled i past name names e t on (
                    attempts_from-Ends enabled (suc i)
                      (past ++ (record { engine_name = name; failure = some e } ∷ [])) names)))
        ]
      ]

  -- `StartWithFallback` starts the first engine of its order that works: those before it have all
  -- failed, the record of attempts has them in order and it last, and it is called a fallback exactly
  -- if it is not the first. It fails only when
  -- every engine has failed, or, with fallback off, the first. With fallback off no engine but the
  -- first is tried, whether it works or fails.
  pub start_with_fallback-Ends :
      (cfg : FallbackConfig) (preferred : String)
      → Ends cfg.enabled 0 []
          (engine_order cfg preferred)
          (start_with_fallback cfg launch link preferred)
  unfolding start_with_fallback
  start_with_fallback-Ends cfg preferred =
      attempts_from-Ends cfg.enabled 0 [] (engine_order cfg preferred)
