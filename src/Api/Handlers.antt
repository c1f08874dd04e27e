-- ===== src/Api/Handlers.antt =====
-- internal/api/handlers.go and the routes of server.go, over the profiles, the tunnels and the
-- configuration. The paths are read, and bodies are decoded, by libraries; a request comes decoded here.
pub mod Serves
pub mod Refines
mod Tests
use bypath.Base.{
  ℕ, String, string_eq, Bool, true, false, ◌==◌, if◌then◌else◌, List, [], ◌∷◌, Option, none, some,
  Dict, Result, ok, err,
}
use bypath.Config.{Config}
use bypath.Profile.{Link, Group}
use bypath.Profile.Parser.{parse_uri}
use bypath.Profile.Parser.Interface.{Decoders, ParseError}
use bypath.Profile.Store as Store
use bypath.Profile.Store.{
  group_not_found, list_groups, get_group, create_group, delete_group, add_link, remove_link,
}
use bypath.Profile.Store.Dir.{Write}
use bypath.Profile.Subscription.{update_subscriptions}
use bypath.Tunnel.Manager as Tunnels
use bypath.Tunnel.Manager.{Status, get_status, stop_tunnel}
use bypath.Gateway.Reload.{reload}
use bypath.Api.Auth.{Request, Answer, served, unauthorized, middleware}

-- What the handlers share: the managers and the configuration of the gateway.
pub record Shared : Type 0 where
  pub profiles : Store.Manager
  pub tunnels : Tunnels.Manager
  pub config : Config

-- How the calls of one request end: the write and the removal of a file, the subscriptions, the file of
-- the configuration, and the order of a range over the groups.
pub record Outside : Type 0 where
  pub write : Write
  pub removable : Bool
  pub fetch : String → Option (List Link)
  pub loaded : Option Config
  pub order : Dict Group → Dict Group
  pub decoders : Decoders

-- The routes, with the variables of the path; a body that cannot be decoded is none.
pub data Route : Type 0 where
  show_status list_all_groups list_tunnels list_chains list_engines reload_config show_metrics :
      Route
  show_group drop_group halt_tunnel update_group : String → Route
  make_group put_link : Option (String × String) → Route
  start_tunnel_of : Bool → Route
  drop_link : String → String → Route

-- What is answered besides the code; a handler that sends a status of chains or of metrics sends other.
pub data Body : Type 0 where
  message : String → Body
  failed : Store.Error → Body
  bad_uri : ParseError → Body
  no_tunnel : Tunnels.Error → Body
  groups_named : List String → Body
  group_shown : Group → Body
  link_added : String → String → Body
  tunnels_shown : Dict Status → Body
  links_updated : ℕ → Body
  restart_required : List String → Body
  other : Body

abbrev pub Response : Type 0
Response = ℕ × Body

-- a call of the profiles, and what is answered for its error
unfoldable pub answered :
    Shared → ℕ → Response → Store.Manager × Option Store.Error → Shared × Response
answered s code good (profiles, none) = (record s { profiles = profiles }, good)
answered s code good (profiles, some e) = (record s { profiles = profiles }, (code, failed e))

-- `handleCreateGroup` behind the decoding
unfoldable pub handle_create_group : Outside → String → String → Shared → Shared × Response
handle_create_group out name kind s =
    let type = if kind == "" then "basic" else kind in
    if name == ""
    then (s, (400, message "name is required"))
    else answered s 409 (201, message "group created") (create_group out.write name type s.profiles)

-- `handleAddLink` behind the decoding
unfoldable pub handle_add_link : Outside → String → String → Shared → Shared × Response
handle_add_link out group uri s =
    let name = if group == "" then "default" else group in
    if uri == "" then (s, (400, message "uri is required")) else elim (parse_uri out.decoders uri) [
      | err e ↦ (s, (400, bad_uri e))
      | ok link ↦
          answered s 500 (201, link_added link.remark link.protocol)
            (add_link out.write name link s.profiles)
    ]

-- `handleUpdateSubscription`
unfoldable pub handle_update_subscription : Outside → String → Shared → Shared × Response
handle_update_subscription out group s =
    let (profiles, count, e) = update_subscriptions out.write out.fetch group s.profiles in
    answered s 500 (200, links_updated count) (profiles, e)

unfoldable pub stopped_tunnel : Shared → Tunnels.Manager × Option Tunnels.Error → Shared × Response
stopped_tunnel s (tunnels, none) = (record s { tunnels = tunnels }, (200, message "tunnel stopped"))
stopped_tunnel s (tunnels, some e) = (record s { tunnels = tunnels }, (404, no_tunnel e))

-- `handleConfigReload`, of what `config.Load` returns
unfoldable pub handle_config_reload : Shared → Option Config → Shared × Response
handle_config_reload s none = (s, (500, message "config reload failed"))
handle_config_reload s (some config) = (
  record s { config = (reload s.config config).0 },
  (200, restart_required (reload s.config config).1),
)

-- `GetStatus` of the tunnels, which marks those that have ended
abbrev pub with_status : Shared → Response → Shared × Response
with_status s r = (record s { tunnels = (get_status s.tunnels).0 }, r)

-- the handlers, by the routes of `registerRoutes`
unfoldable pub handle : Outside → Route → Shared → Shared × Response
handle out show_status s = with_status s (200, other)
handle out list_all_groups s = (s, (200, groups_named (list_groups (out.order s.profiles.groups))))
handle out (show_group name) s = elim (get_group name s.profiles) [
  | none ↦ (s, (404, failed group_not_found))
  | some g ↦ (s, (200, group_shown g))
]
handle out (make_group none) s = (s, (400, message "invalid request body"))
handle out (make_group (some (name, kind))) s = handle_create_group out name kind s
handle out (drop_group name) s =
    answered s 404 (200, message "group deleted") (delete_group out.removable name s.profiles)
handle out (put_link none) s = (s, (400, message "invalid request body"))
handle out (put_link (some (group, uri))) s = handle_add_link out group uri s
handle out (drop_link group remark) s =
    answered s 404 (200, message "link deleted") (remove_link out.write group remark s.profiles)
handle out list_tunnels s = with_status s (200, tunnels_shown (get_status s.tunnels).1)
handle out (start_tunnel_of false) s = (s, (400, message "invalid request body"))
handle out (start_tunnel_of true) s = (s, (202, message "tunnel start requested"))
handle out (halt_tunnel name) s = stopped_tunnel s (stop_tunnel name s.tunnels)
handle out list_chains s = (s, (200, other))
handle out list_engines s = (s, (200, message "not yet implemented"))
handle out (update_group group) s = handle_update_subscription out group s
handle out reload_config s = handle_config_reload s out.loaded
handle out show_metrics s = (s, (200, other))

-- The router: the check of the token stands before every route, also that of the metrics.
unfoldable pub serve_request : String → Outside → Request → Route → Shared → Shared × Response
serve_request token out headers route s = elim (middleware token headers) [
  | served ↦ handle out route s
  | unauthorized text ↦ (s, (401, message text))
]
