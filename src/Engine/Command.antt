-- ===== src/Engine/Command.antt =====
-- internal/engine/process.go: the command line that `StartProcess` runs.
use bypath.Base.{
  String, string_eq, Bool, ◌==◌, ◌<>◌, if◌then◌else◌, List, [], ◌∷◌, ◌++◌, Option, none, some, map,
}
use bypath.Tunnel.Json.{switch}

-- `FirejailOptions`
pub record FirejailOptions : Type 0 where
  pub enabled : Bool
  pub namespace : String
  pub net_iface : String
  pub ip : String
  pub gateway : String
  pub dns : List String

-- `RunOptions`, with the name and the path of the engine
pub record RunOptions : Type 0 where
  pub engine_name : String
  pub engine_path : String
  pub args : List String
  pub config_file : String
  pub log_file : String
  pub firejail : Option FirejailOptions

-- `buildEngineArgs`
unfoldable pub build_engine_args : RunOptions → List String
build_engine_args opts =
    let run = "run" ∷ "-c" ∷ opts.config_file ∷ [] in
    switch opts.engine_name
      (("sing-box", run)
        ∷ ("xray", run)
        ∷ ("wireguard-go", opts.config_file ∷ [])
        ∷ ("openvpn", "--config" ∷ opts.config_file ∷ [])
        ∷ [])
      opts.args

-- an option of firejail, if it is set
abbrev pub option_if : String → String → List String
option_if flag setting = if setting == "" then [] else (flag <> setting) ∷ []

-- what `buildFirejailArgs` puts before the command of the engine
unfoldable pub firejail_options : FirejailOptions → List String
firejail_options fj =
    ("--noprofile" ∷ option_if "--net=" fj.net_iface)
    ++ (option_if "--ip=" fj.ip
        ++ (option_if "--defaultgw=" fj.gateway
            ++ (option_if "--name=" fj.namespace ++ map (λ dns. "--dns=" <> dns) fj.dns)))

-- `buildFirejailArgs`
unfoldable pub build_firejail_args : FirejailOptions → RunOptions → List String
build_firejail_args fj opts = firejail_options fj ++ (opts.engine_path ∷ build_engine_args opts)

-- the binary that `StartProcess` starts, and its arguments
unfoldable pub command_of : RunOptions → String × List String
command_of opts =
    let plain : String × List String = (opts.engine_path, build_engine_args opts) in
    elim opts.firejail [
      | none ↦ plain
      | some fj ↦ if fj.enabled then ("firejail", build_firejail_args fj opts) else plain
    ]
