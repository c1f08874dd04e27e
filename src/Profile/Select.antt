-- ===== src/Profile/Select.antt =====
-- internal/profile/autoselect.go: the choice of the best link of a benchmark. A latency is a
-- `time.Duration`, an `int` of nanoseconds.
pub mod Best
use bypath.Base.{
  ℤ, Bool, true, false, not, List, [], ◌∷◌, Option, none, some, if◌then◌else◌, select,
}
use bypath.Base.Int.{ltb_ℤ}
use bypath.Profile.{Link}

-- `BenchResult`
pub record BenchResult : Type 0 where
  pub link : Link
  pub latency : ℤ
  pub https_ok : Bool
  pub passed : Bool

-- `SelectResult`
pub record SelectResult : Type 0 where
  pub best : Option BenchResult
  pub skipped : List BenchResult
  pub no_https : Bool

-- the loops that append to `passing`, `httpsCapable` and `nonHTTPS`
abbrev pub passing : List BenchResult → List BenchResult
passing = select (λ r. r.passed)

abbrev pub https_capable : List BenchResult → List BenchResult
https_capable = select (λ r. r.https_ok)

abbrev pub non_https : List BenchResult → List BenchResult
non_https = select (λ r. not r.https_ok)

-- `for … if r.Latency < best.Latency { best = r }`
unfoldable pub fastest : BenchResult → List BenchResult → BenchResult
fastest best [] = best
fastest best (r ∷ rs) = fastest (if ltb_ℤ r.latency best.latency then r else best) rs

-- the loop that collects the faster links without HTTPS
abbrev pub faster_than : BenchResult → List BenchResult → List BenchResult
faster_than best = select (λ r. ltb_ℤ r.latency best.latency)

abbrev pub choose : List BenchResult → List BenchResult → List BenchResult → SelectResult
choose [] _ _ = record { best = none; skipped = []; no_https = false }
choose (p ∷ ps) [] _ = record { best = some (fastest p ps); skipped = []; no_https = true }
choose (p ∷ ps) (h ∷ hs) slow =
    let best = fastest h hs in
    record { best = some best; skipped = faster_than best slow; no_https = false }

-- `SelectBest`
unfoldable pub select_best : List BenchResult → SelectResult
unfolding fastest
select_best results = let ps = passing results in choose ps (https_capable ps) (non_https ps)
