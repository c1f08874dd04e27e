-- ===== src/Gateway/Polls.antt =====
-- The two polls of internal/gateway/gateway.go: `waitForPort` and `waitForTUNDevice`. Times are in
-- milliseconds from the call on; how long a try takes is an argument, the pauses are as long as they say.
-- `waitForPort` of internal/tunnel/tunnel.go is the same code.
pub mod Waits
mod Tests
use bypath.Base.{ℕ, zero, suc, ◌+◌, ◌/◌, Bool, true, false, not, ltb, if◌then◌else◌}

-- The tries: whether try `i` finds the port open, or the device, and how long it takes.
pub record Tries : Type 0 where
  pub succeeds : ℕ → Bool
  pub takes : ℕ → ℕ

-- How a poll ends: at a try, at its deadline, or not within the fuel.
pub data Polled : Type 0 where
  ready : ℕ → Polled
  late unfinished : Polled

-- `time.Sleep(500 * time.Millisecond)`
abbrev pub pause : ℕ
pause = 500

-- the loop `for time.Now().Before(deadline)` from try `i` on, which begins at `now`
unfoldable pub poll : Tries → ℕ → ℕ → ℕ → ℕ → Polled
poll tries deadline zero now i = unfinished
poll tries deadline (suc fuel) now i =
    let rest = poll tries deadline fuel (now + tries.takes i + pause) (suc i) in
    if not (ltb now deadline) then late else if tries.succeeds i then ready i else rest

-- tries enough: each but the last takes a pause at least
abbrev pub fuel_for : ℕ → ℕ
fuel_for timeout = timeout / pause + 2

-- `waitForPort` and `waitForTUNDevice`, which differ in what they try
unfoldable pub wait_for : Tries → ℕ → Polled
wait_for tries timeout = poll tries timeout (fuel_for timeout) 0 0
