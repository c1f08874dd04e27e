-- ===== src/Gateway/Engines.antt =====
-- How internal/gateway/gateway.go starts an engine for a link, and falls back to other engines, links
-- and modes. A run of an engine is known by the number of the start; what the system does at a start
-- is an argument.
pub mod Running
use bypath.Base.{
  ℕ, suc, ◌+◌, pos, String, string_eq, nat_eq, Bool, true, false, not, ◌&&◌, ◌||◌, ◌==◌,
  if◌then◌else◌, List, [], ◌∷◌, ◌++◌, map, Option, none, some, select, lookup, Result, ok, err,
}
use bypath.Base.Int.{ltb_ℤ}
use bypath.Profile.{Link, Group}
use bypath.Profile.Store as Store
use bypath.Profile.Store.{set_active_link, get_group}
use bypath.Profile.Store.Dir.{Write}
use bypath.Config.{Config, GatewayConfig}
use bypath.Engine.Fallback.{Launch, processes_of, start_with_fallback}
use bypath.Gateway.Connectivity.{Curl, verify_connection}

-- The parts of `Gateway` that the engine concerns, the runs of engines that have not been stopped, and
-- the number of the next start. `cancelled` is whether `gw.ctx` is done.
pub record Gateway : Type 0 where
  pub config : Config
  pub profiles : Store.Manager
  pub native_tun : Bool
  pub active_engine : String
  pub embedded : Option ℕ
  pub engine_proc : Option ℕ
  pub cancelled : Bool
  pub alive : List ℕ
  pub starts : ℕ

-- What the system does: whether an embedded engine of a name is there and starts, how the attempts of
-- the fallback end, and what `curl` says in the checks behind it; by the number of the start. Then the
-- write of the active link, and whether this is the full build.
pub record System : Type 0 where
  pub embedded_starts : ℕ → String → Link → Bool
  pub launch : ℕ → ℕ → Launch
  pub curl : ℕ → ℕ → Curl
  pub write : Write
  pub is_full : Bool

abbrev first_or : List String → String → String
first_or [] d = d
first_or (name ∷ _) d = name

-- `preferredName`
unfoldable pub preferred_name : Config → String
preferred_name cfg =
    let preferred = cfg.engines.preferred_engine in
    if preferred == "" then first_or cfg.engines.fallback.order "sing-box" else preferred

-- the gateway mode, in which sing-box makes the TUN device
abbrev pub makes_tun : Config → String → Bool
makes_tun cfg name = cfg.gateway.enabled && cfg.gateway.native_tun && name == "sing-box"

module _ (sys : System) where
  -- `startEngine`; whether there is no error. The processes that the fallback leaves run too.
  unfoldable pub start_engine : Link → Gateway → Gateway × Bool
  start_engine link gw =
      let n = gw.starts in
      let name = preferred_name gw.config in
      let preferred = gw.config.engines.preferred_engine in
      let left = processes_of gw.config.engines.fallback (sys.launch n) link preferred in
      let counted : Gateway = record gw { starts = suc n } in
      if sys.embedded_starts n name link
      then (
        record counted {
          embedded = some n;
          active_engine = name;
          alive = n ∷ gw.alive;
          native_tun = makes_tun gw.config name || gw.native_tun;
        },
        true,
      )
      else elim (start_with_fallback gw.config.engines.fallback (sys.launch n) link preferred) [
        | err _ ↦ (record counted { alive = map (λ i. n) left ++ gw.alive }, false)
        | ok result ↦ (
          record counted {
            engine_proc = some n;
            active_engine = result.engine_name;
            alive = map (λ i. n) left ++ gw.alive;
            native_tun = makes_tun gw.config result.engine_name || gw.native_tun;
          },
          true,
        )
      ]

  -- the engine stopped: the embedded one, or else the process
  unfoldable pub drop_engine : Gateway → Gateway
  drop_engine gw = elim gw.embedded [
    | some n ↦ record gw { embedded = none; alive = select (λ m. not (m == n)) gw.alive }
    | none ↦ elim gw.engine_proc [
      | some n ↦ record gw { engine_proc = none; alive = select (λ m. not (m == n)) gw.alive }
      | none ↦ gw
    ]
  ]

  -- `gw.verifyConnection()` of attempt `i` behind start `n`
  abbrev pub connects : ℕ → ℕ → Gateway → Bool
  connects n i gw = verify_connection (sys.curl n i) gw.config.whitelist.countries

  -- the checks of `startEngineWithEngineFallback` behind start `n`
  unfoldable pub checked : ℕ → Gateway → Gateway × Bool
  checked n gw =
      if connects n 0 gw
      then (gw, true)
      else if gw.cancelled
      then (gw, false)
      else if connects n 1 gw || connects n 2 gw
      then (gw, true)
      else (record (drop_engine gw) { active_engine = "" }, false)

  -- `startEngineWithEngineFallback`
  unfoldable pub start_engine_with_engine_fallback : Link → Gateway → Gateway × Bool
  start_engine_with_engine_fallback link gw =
      let (started, is_ok) = start_engine link gw in
      if is_ok then checked gw.starts started else (started, false)

  -- a link that may be tried behind another one
  unfoldable pub is_candidate : Link → Link → Bool
  is_candidate link candidate =
      not (candidate.remark == link.remark)
      && not (
          ltb_ℤ candidate.port (pos 10)
          || candidate.address == ""
          || candidate.address == "0.0.0.0")

  -- the loop of `startEngineWithLinkFallback` over the links of the group
  unfoldable pub try_links : Link → List Link → Gateway → Gateway × Bool
  try_links link [] gw = (gw, false)
  try_links link (l ∷ ls) gw =
      let (tried, is_up) = start_engine_with_engine_fallback l gw in
      let skipped = try_links link ls gw in
      let next = try_links link ls tried in
      if not (is_candidate link l)
      then skipped
      else if is_up
      then (record tried { profiles = set_active_link sys.write l tried.profiles }, true)
      else next

  -- `fallbackGroup`
  abbrev pub fallback_group : Link → Gateway → String
  fallback_group link gw = if link.group == "" then gw.config.profiles.active_group else link.group

  abbrev pub links_of : Option Group → List Link
  links_of none = []
  links_of (some g) = g.links

  -- `startEngineWithLinkFallback`; a group that is not there has no links to try
  unfoldable pub start_engine_with_link_fallback : Link → Gateway → Gateway × Bool
  start_engine_with_link_fallback link gw =
      let (tried, is_up) = start_engine_with_engine_fallback link gw in
      if is_up
      then (tried, true)
      else try_links link (links_of (get_group (fallback_group link gw) tried.profiles)) tried

  abbrev pub with_native_tun : Bool → Config → Config
  with_native_tun on cfg = record cfg { gateway = record cfg.gateway { native_tun = on } }

  -- `restartEngineAsLegacy`
  unfoldable pub restart_engine_as_legacy : Link → Gateway → Gateway × Bool
  restart_engine_as_legacy link gw =
      let orig = gw.config.gateway.native_tun in
      let legacy = record (drop_engine gw) {
        config = with_native_tun false gw.config;
        native_tun = false;
      } in
      let (started, is_up) = start_engine_with_link_fallback link legacy in
      (record started { config = with_native_tun orig started.config }, is_up)

  -- `startEngineWithFallback`
  unfoldable pub start_engine_with_fallback : Link → Gateway → Gateway × Bool
  start_engine_with_fallback link gw =
      let (tried, is_up) = start_engine_with_link_fallback link gw in
      let (retried, is_up_again) = start_engine_with_link_fallback link tried in
      if not gw.config.gateway.native_tun
      then start_engine_with_link_fallback link (record gw { native_tun = false })
      else if is_up
      then (tried, true)
      else if not sys.is_full
      then restart_engine_as_legacy link (record tried { native_tun = false })
      else if tried.cancelled
      then (tried, false)
      else if is_up_again
      then (retried, true)
      else restart_engine_as_legacy link (record retried { native_tun = false })
