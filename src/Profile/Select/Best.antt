-- ===== src/Profile/Select/Best.antt =====
-- What `SelectBest` promises: the first fastest link among those it prefers.
use bypath.Base.{
  Bool, true, false, not, ◌&&◌, List, [], ◌∷◌, ◌++◌, none, some, ◌≡◌, refl, sym, ap, subst,
  head-eq_of_cons-eq, tail-eq_of_cons-eq, ◌∙◌, arith, All, select, select-select, Bool-cases, inl,
  inr,
}
use mathlib.Core.List.{cons-ne-nil}
use bypath.Base.Int.{ltb_ℤ, lt_of_lt_of_le, lt_of_le_of_lt, lt_asymm, lt_irrefl}
use bypath.Profile.Select.{
  BenchResult, SelectResult, passing, https_capable, non_https, fastest, faster_than, choose,
  select_best,
}

-- The list has `b` in it, all before it are slower, and none behind it is faster.
pub record IsFirstFastest (b : BenchResult) (rs : List BenchResult) : Type 0 where
  pub front : List BenchResult
  pub back : List BenchResult
  pub splits : rs ≡ front ++ b ∷ back
  pub before_slower : All (λ r. ltb_ℤ b.latency r.latency ≡ true) front
  pub behind_not_faster : All (λ r. ltb_ℤ r.latency b.latency ≡ false) back

-- the loop ends with a link that is at most as slow as the one it began with
fastest-le :
    (b : BenchResult) (rs : List BenchResult) → ltb_ℤ b.latency (fastest b rs).latency ≡ false
unfolding fastest
fastest-le b [] = lt_irrefl b.latency
fastest-le b (r ∷ rs) = elim (Bool-cases (ltb_ℤ r.latency b.latency)) [
  | inl faster ↦
      let best = fastest r rs in
      rw (faster, fastest)
        (lt_asymm best.latency b.latency
          (lt_of_le_of_lt best.latency r.latency b.latency (fastest-le r rs) faster))
  | inr slower ↦ rw (slower, fastest) (fastest-le b rs)
]

-- a faster head becomes the best so far
IsFirstFastest-skip :
    (b r m : BenchResult) (rs : List BenchResult)
    → ltb_ℤ r.latency b.latency ≡ true
    → ltb_ℤ r.latency m.latency ≡ false
    → IsFirstFastest m (r ∷ rs)
    → IsFirstFastest m (b ∷ r ∷ rs)
IsFirstFastest-skip b r m rs faster le best = record {
  front = b ∷ best.front;
  back = best.back;
  splits = ap (λ l. b ∷ l) best.splits;
  before_slower = (lt_of_le_of_lt m.latency r.latency b.latency le faster, best.before_slower);
  behind_not_faster = best.behind_not_faster;
}

-- a second link that is not faster changes nothing
IsFirstFastest-insert :
    (b r m : BenchResult) (rs : List BenchResult)
    → ltb_ℤ r.latency b.latency ≡ false
    → IsFirstFastest m (b ∷ rs)
    → IsFirstFastest m (b ∷ r ∷ rs)
IsFirstFastest-insert b r m rs le best = go best.front best.splits best.before_slower
  where
    go :
        (front : List BenchResult)
        → b ∷ rs ≡ front ++ m ∷ best.back
        → All (λ x. ltb_ℤ m.latency x.latency ≡ true) front
        → IsFirstFastest m (b ∷ r ∷ rs)
    go [] e _ = record {
      front = [];
      back = r ∷ rs;
      splits = ground arith;
      before_slower = tt;
      behind_not_faster = (
        subst (λ z. ltb_ℤ r.latency z.latency ≡ false) (head-eq_of_cons-eq e) le,
        subst (All (λ x. ltb_ℤ x.latency m.latency ≡ false)) (sym (tail-eq_of_cons-eq e))
            best.behind_not_faster,
      );
    }
    go (x ∷ front) e (h, hs) = record {
      front = b ∷ r ∷ front;
      back = best.back;
      splits = ground arith;
      before_slower =
          let slower =
            subst (λ z. ltb_ℤ m.latency z.latency ≡ true) (sym (head-eq_of_cons-eq e)) h in
          (slower, (lt_of_lt_of_le m.latency b.latency r.latency slower le, hs));
      behind_not_faster = best.behind_not_faster;
    }

fastest-IsFirstFastest :
    (b : BenchResult) (rs : List BenchResult) → IsFirstFastest (fastest b rs) (b ∷ rs)
unfolding fastest
fastest-IsFirstFastest b [] = record {
  front = [];
  back = [];
  splits = refl;
  before_slower = tt;
  behind_not_faster = tt;
}
fastest-IsFirstFastest b (r ∷ rs) = elim (Bool-cases (ltb_ℤ r.latency b.latency)) [
  | inl faster ↦
      rw (faster, fastest)
        (IsFirstFastest-skip b r (fastest r rs) rs faster (fastest-le r rs)
          (fastest-IsFirstFastest r rs))
  | inr slower ↦
      rw (slower, fastest)
        (IsFirstFastest-insert b r (fastest b rs) rs slower (fastest-IsFirstFastest b rs))
]

-- The outcomes of `SelectBest`, described without its loops.
pub data Selects (results : List BenchResult) : SelectResult → Type 0 where
  nobody :
      All (λ r. r.passed ≡ false) results
      → Selects results (record { best = none; skipped = []; no_https = false })
  fallback :
      {b : BenchResult}
      → All (λ r. (r.passed && r.https_ok) ≡ false) results
      → IsFirstFastest b (select (λ r. r.passed) results)
      → Selects results (record { best = some b; skipped = []; no_https = true })
  capable :
      {b : BenchResult}
      → IsFirstFastest b (select (λ r. r.passed && r.https_ok) results)
      → Selects results (record {
        best = some b;
        skipped = select (λ r. r.passed && not r.https_ok && ltb_ℤ r.latency b.latency) results;
        no_https = false;
      })

select-eq-nil :
    (p : BenchResult → Bool) (rs : List BenchResult) → select p rs ≡ [] → All (λ r. p r ≡ false) rs
unfolding select
select-eq-nil p [] e = tt
select-eq-nil p (r ∷ rs) e = elim (Bool-cases (p r)) [
  | inl kept ↦ absurd (cons-ne-nil r (select p rs) (rw kept at e))
  | inr dropped ↦ (dropped, select-eq-nil p rs (rw dropped at e))
]

-- the three loops that collect `skipped`, as one
faster_than-non_https :
    (b : BenchResult) (rs : List BenchResult)
    → faster_than b (non_https (passing rs))
      ≡ select (λ r. r.passed && not r.https_ok && ltb_ℤ r.latency b.latency) rs
faster_than-non_https b rs =
    ap (faster_than b) (select-select (λ r. r.passed) (λ r. not r.https_ok) rs)
    ∙ select-select (λ r. r.passed && not r.https_ok) (λ r. ltb_ℤ r.latency b.latency) rs

-- `SelectBest` picks the first fastest among the passing HTTPS-capable links, and reports exactly
-- the faster passing links without HTTPS; with no capable link it falls back to the first fastest
-- passing link, and with no passing link it picks none.
pub select_best-Selects : (results : List BenchResult) → Selects results (select_best results)
unfolding select_best
select_best-Selects results = go (passing results) refl (https_capable (passing results)) refl
  where
    go :
        (ps : List BenchResult)
        → passing results ≡ ps
        → (hs : List BenchResult) → https_capable (passing results) ≡ hs
        → Selects results (choose ps hs (non_https (passing results)))
    go [] e hs _ = nobody (select-eq-nil _ results e)
    go (p ∷ ps) e [] e' =
        fallback
          (select-eq-nil _ results
            (sym (select-select (λ r. r.passed) (λ r. r.https_ok) results) ∙ e'))
          (rw e (fastest-IsFirstFastest p ps))
    go (p ∷ ps) e (h ∷ hs) e' =
        let best = fastest h hs in
        subst (λ sk. Selects results (record { best = some best; skipped = sk; no_https = false }))
          (sym (faster_than-non_https best results))
          (capable (
            rw (← select-select (λ r. r.passed) (λ r. r.https_ok) results, e')
              (fastest-IsFirstFastest h hs)))
