-- ===== src/Engine/Fallback.antt =====
-- internal/engine/fallback.go: the engines that are tried, one after the other.
pub mod Falls
pub mod Leaves
use bypath.Base.{
  ℕ, zero, suc, String, string_eq, nat_eq, Bool, true, false, not, ◌&&◌, List, [], ◌∷◌, ◌++◌,
  select, if◌then◌else◌, ◌==◌, ltb, Option, none, some, ◌≡◌, refl, sym, ap, ◌∙◌, Result, ok, err,
  ◌>>=◌, Bool-cases, append_assoc, All, length, arith,
}
use bypath.Profile.{Link}
use bypath.Config.{FallbackConfig}
use bypath.Tunnel.Json.{switch}

-- `Engine`, as the controller reads it
pub record Engine : Type 0 where
  pub name : String
  pub path : String

-- How the calls of one attempt end: the engine manager, the generator, the process and its port. A
-- started process is known by a text.
pub record Launch : Type 0 where
  pub get : String → Result String Engine
  pub generate : Engine → Link → Result String String
  pub start : String → List String → Result String String
  pub port_opens : String → Bool

-- `engineOrder`
unfoldable pub engine_order : FallbackConfig → String → List String
engine_order cfg preferred =
    let defaults : List String = "sing-box" ∷ "xray" ∷ [] in
    let order : List String = elim cfg.order [ [] ↦ defaults | name ∷ names ↦ name ∷ names ] in
    if preferred == "" then order else preferred ∷ select (λ name. not (name == preferred)) order

-- the arguments that an engine is started with
abbrev pub engine_args : Engine → String → List String
engine_args eng config_file =
    let run = "run" ∷ "-c" ∷ config_file ∷ [] in
    switch eng.name (("sing-box", run) ∷ ("xray", run) ∷ []) ("-c" ∷ config_file ∷ [])

-- `tryEngine` up to `proc.Start()`: the process and the configuration file
unfoldable pub start_process : Launch → Link → String → Result String (String × String)
start_process launch link name = do
  eng ← launch.get name
  config_file ← launch.generate eng link
  proc ← launch.start eng.path (engine_args eng config_file)
  ok (proc, config_file)

abbrev pub if_ready : Launch → String × String → Result String (String × String)
if_ready launch (proc, config_file) =
    if launch.port_opens proc then ok (proc, config_file) else err "port not ready"

-- `tryEngine`: the process and the configuration file
unfoldable pub try_engine : Launch → Link → String → Result String (String × String)
try_engine launch link name = start_process launch link name >>= if_ready launch

-- `proc.Process.Kill()`
abbrev pub killed : ℕ → List ℕ → List ℕ
killed i running = select (λ j. not (j == i)) running

-- What `tryEngine` makes of the processes that run, each known by the number of its attempt: the one
-- that it starts is killed, where its port stays closed.
unfoldable pub processes_behind : Launch → Link → String → ℕ → List ℕ → List ℕ
processes_behind launch link name i running = elim (start_process launch link name) [
  | err e ↦ running
  | ok (proc, file) ↦ if launch.port_opens proc then i ∷ running else killed i (i ∷ running)
]

-- `AttemptRecord`, but for its duration
pub record AttemptRecord : Type 0 where
  pub engine_name : String
  pub failure : Option String

-- `FallbackResult`; the engine itself is the one of its name
pub record FallbackResult : Type 0 where
  pub process : String
  pub config_file : String
  pub engine_name : String
  pub was_fallback : Bool
  pub attempts : List AttemptRecord

module _ (enabled : Bool) (launch : ℕ → Launch) (link : Link) where
  -- the loop of `StartWithFallback` from engine number `i`; the attempts are those before it. An
  -- error is the list of the attempts, of which Go makes a text.
  unfoldable pub attempts_from :
      ℕ → List AttemptRecord → List String → Result (List AttemptRecord) FallbackResult
  attempts_from i attempts [] = err attempts
  attempts_from i attempts (name ∷ names) =
      let failed : String → List AttemptRecord =
        λ e. attempts ++ (record { engine_name = name; failure = some e } ∷ []) in
      elim (try_engine (launch i) link name) [
        | err e ↦
            let next = attempts_from (suc i) (failed e) names in
            if not enabled && i == 0 then err (failed e) else next
        | ok (proc, file) ↦ ok (record {
          process = proc;
          config_file = file;
          engine_name = name;
          was_fallback = ltb 0 i;
          attempts = attempts ++ (record { engine_name = name; failure = none } ∷ []);
        })
      ]

module _ (enabled : Bool) (launch : ℕ → Launch) (link : Link) where
  -- the processes that run behind the loop of `StartWithFallback` from engine number `i`
  unfoldable pub processes_from : ℕ → List ℕ → List String → List ℕ
  processes_from i running [] = running
  processes_from i running (name ∷ names) =
      let now = processes_behind (launch i) link name i running in
      let next = processes_from (suc i) now names in
      elim (try_engine (launch i) link name) [
        | err e ↦ if not enabled && i == 0 then now else next
        | ok found ↦ now
      ]

-- the processes that `StartWithFallback` leaves
unfoldable pub processes_of : FallbackConfig → (ℕ → Launch) → Link → String → List ℕ
processes_of cfg launch link preferred =
    processes_from cfg.enabled launch link 0 [] (engine_order cfg preferred)

-- `StartWithFallback`; attempt `i` ends as `launch i` says
unfoldable pub start_with_fallback :
    FallbackConfig → (ℕ → Launch) → Link → String → Result (List AttemptRecord) FallbackResult
start_with_fallback cfg launch link preferred =
    attempts_from cfg.enabled launch link 0 [] (engine_order cfg preferred)
