-- ===== src/Gateway/Polls/Waits.antt =====
-- That the polls end, and when.
use bypath.Base.{
  arith, ℕ, zero, suc, ◌+◌, ◌*◌, ◌<◌, ◌≤◌, true, false, ltb, ◌≡◌, subst, inl, inr, Bool-cases,
}
use bypath.Gateway.Polls.{Tries, Polled, ready, late, pause, poll, fuel_for, wait_for}

-- when try `i` begins
abbrev pub begins : Tries → ℕ → ℕ
begins tries zero = 0
begins tries (suc i) = begins tries i + tries.takes i + pause

-- How a poll ends: at the first try that succeeds, which begins before the deadline; or when no try
-- has succeeded and the next one would begin at the deadline or behind it.
pub data Waits (tries : Tries) (timeout : ℕ) : Polled → Type 0 where
  at_try :
      (i : ℕ)
      → begins tries i < timeout
      → tries.succeeds i ≡ true
      → ((j : ℕ) → j < i → tries.succeeds j ≡ false)
      → Waits tries timeout (ready i)
  at_deadline :
      (i : ℕ)
      → timeout ≤ begins tries i
      → ((j : ℕ) → j < i → tries.succeeds j ≡ false)
      → i < fuel_for timeout
      → Waits tries timeout late

module _ (tries : Tries) (timeout : ℕ) where
  failed_before :
      (i : ℕ)
      → ((j : ℕ) → j < i → tries.succeeds j ≡ false)
      → tries.succeeds i ≡ false
      → (j : ℕ) → j < suc i
      → tries.succeeds j ≡ false
  failed_before i before now j less = elim (Bool-cases (ltb j i)) [
    | inl old ↦ before j (ground (arith, old))
    | inr top ↦ subst (λ k. tries.succeeds k ≡ false) (ground (arith, top, less)) now
  ]

  -- from try `i` on, where the fuel counts the tries that are left
  poll-Waits :
      (fuel i : ℕ)
      → i + fuel ≡ fuel_for timeout
      → pause * i ≤ begins tries i
      → pause * i < timeout + pause
      → ((j : ℕ) → j < i → tries.succeeds j ≡ false)
      → Waits tries timeout (poll tries timeout fuel (begins tries i) i)
  unfolding poll
  poll-Waits zero i left slow short before = absurd (omega (arith, left, short))
  poll-Waits (suc fuel) i left slow short before =
      elim (Bool-cases (ltb (begins tries i) timeout)) [
        | inr e ↦ rw (e, poll) (at_deadline i (ground (arith, e)) before (omega (arith, left)))
        | inl e ↦
            let early : begins tries i < timeout = ground (arith, e) in
            elim (Bool-cases (tries.succeeds i)) [
              | inl f ↦ rw (e, f, poll) (at_try i early f before)
              | inr f ↦
                  rw (e, f, poll)
                    (poll-Waits fuel (suc i) (omega (arith, left)) (omega (arith, slow))
                      (omega (arith, slow, early)) (failed_before i before f))
            ]
      ]

-- Whatever the tries take, and for any timeout, a poll ends: with the first try that succeeds, if it begins
-- before the deadline, and else at the deadline, after at most one try more than pauses fit the timeout.
pub wait_for-Waits : (tries : Tries) (timeout : ℕ) → Waits tries timeout (wait_for tries timeout)
unfolding wait_for
wait_for-Waits tries timeout =
    poll-Waits tries timeout (fuel_for timeout) 0 (omega arith) (omega arith) (omega arith)
      (λ j less. absurd (omega (arith, less)))
