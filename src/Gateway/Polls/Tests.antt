-- ===== src/Gateway/Polls/Tests.antt =====
-- Polls of a port that opens at the third try.
use bypath.Base.{nat_eq, ◌==◌, ◌≡◌, refl}
use bypath.Gateway.Polls.{Tries, ready, late, wait_for, poll}
use bypath.Gateway.Polls.Waits.{Waits, wait_for-Waits}

abbrev third : Tries
third = record { succeeds = λ i. i == 2; takes = λ i. 100 }

third-ready : wait_for third 5000 ≡ ready 2
unfolding wait_for poll
third-ready = refl

third-late : wait_for third 1200 ≡ late
unfolding wait_for poll
third-late = refl

wait_for-Waits_example : Waits third 1200 (wait_for third 1200)
wait_for-Waits_example = wait_for-Waits third 1200
