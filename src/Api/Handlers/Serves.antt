-- ===== src/Api/Handlers/Serves.antt =====
-- What each route of internal/api/handlers.go does.
use bypath.Base.{
  ℕ, String, string_eq, true, false, ◌==◌, if◌then◌else◌, ok, err, lookup, eq_iff, sym, ◌∙◌, subst,
  ◌≢◌, Option, none, some, Dict, ◌≡◌, refl, inl, inr, Bool-cases, Option-cases, Result-cases, ◌⊎◌,
}
use bypath.Config.{Config}
use bypath.Profile.Parser.{parse_uri}
use bypath.Profile.Store as Store
use bypath.Profile.{Link, Group}
use bypath.Profile.Store.{new_manager, get_group, create_group, add_link, delete_group, remove_link}
use bypath.Profile.Subscription.{update_subscriptions}
use bypath.Profile.Parser.Interface.{ParseError}
use bypath.Tunnel.Manager as Tunnels
use bypath.Tunnel.Manager.{stop_tunnel, get_status}
use bypath.Gateway.Reload.{reload}
use bypath.Api.Handlers.{
  Shared, Outside, Route, Body, message, failed, bad_uri, no_tunnel, link_added, Response,
  show_status, list_all_groups, list_tunnels, list_chains, list_engines, reload_config,
  show_metrics, show_group, drop_group, halt_tunnel, update_group, make_group, put_link,
  start_tunnel_of, drop_link, answered, handle_create_group, handle_add_link,
  handle_update_subscription, handle_config_reload, stopped_tunnel, handle,
}

-- How a handler ends that calls the profiles: with the profiles that the call leaves, and the code for
-- its success or for its error.
pub data Answers (s : Shared) (good bad : ℕ) (r : Store.Manager × Option Store.Error)
    : Shared × Response → Type 0 where
  fine :
      {body : Body} → r.1 ≡ none → Answers s good bad r (record s { profiles = r.0 }, (good, body))
  failing :
      (e : Store.Error)
      → r.1 ≡ some e
      → Answers s good bad r (record s { profiles = r.0 }, (bad, failed e))

-- the routes that change nothing, with the code: those that only read, the start of a tunnel, and those
-- whose body cannot be decoded
unfoldable pub fixed_code : Dict Group → Route → Option ℕ
fixed_code groups list_all_groups = some 200
fixed_code groups list_chains = some 200
fixed_code groups list_engines = some 200
fixed_code groups show_metrics = some 200
fixed_code groups (start_tunnel_of true) = some 202
fixed_code groups (start_tunnel_of false) = some 400
fixed_code groups (make_group none) = some 400
fixed_code groups (put_link none) = some 400
fixed_code groups (show_group name) = elim (lookup name groups) [
  | none ↦ some 404
  | some g ↦ some 200
]
fixed_code groups _ = none

abbrev pub or_basic : String → String
or_basic kind = if kind == "" then "basic" else kind

abbrev pub or_default_group : String → String
or_default_group group = if group == "" then "default" else group

-- What each route does: the call of a manager, with what the request names, and the code of the answer.
pub data Serves (out : Outside) (s : Shared) : Route → Shared × Response → Type 0 where
  reads :
      {route : Route} {code : ℕ} {body : Body}
      → fixed_code s.profiles.groups route ≡ some code
      → Serves out s route (s, (code, body))
  unnamed :
      {kind : String} {body : Body} → Serves out s (make_group (some ("", kind))) (s, (400, body))
  creates :
      {name kind : String} {r : Shared × Response}
      → name ≢ ""
      → Answers s 201 409 (create_group out.write name (or_basic kind) s.profiles) r
      → Serves out s (make_group (some (name, kind))) r
  empty_uri :
      {group : String} {body : Body} → Serves out s (put_link (some (group, ""))) (s, (400, body))
  bad_link :
      {group uri : String} (e : ParseError)
      → parse_uri out.decoders uri ≡ err e
      → Serves out s (put_link (some (group, uri))) (s, (400, bad_uri e))
  adds :
      {group uri : String} {link : Link} {r : Shared × Response}
      → uri ≢ ""
      → parse_uri out.decoders uri ≡ ok link
      → Answers s 201 500 (add_link out.write (or_default_group group) link s.profiles) r
      → Serves out s (put_link (some (group, uri))) r
  drops :
      {name : String} {r : Shared × Response}
      → Answers s 200 404 (delete_group out.removable name s.profiles) r
      → Serves out s (drop_group name) r
  removes :
      {group remark : String} {r : Shared × Response}
      → Answers s 200 404 (remove_link out.write group remark s.profiles) r
      → Serves out s (drop_link group remark) r
  updates :
      {group : String} (n : ℕ) {m : Store.Manager} {e : Option Store.Error} {r : Shared × Response}
      → update_subscriptions out.write out.fetch group s.profiles ≡ (m, n, e)
      → Answers s 200 500 (m, e) r
      → Serves out s (update_group group) r
  looks :
      {route : Route} {body : Body}
      → (route ≡ show_status) ⊎ (route ≡ list_tunnels)
      → Serves out s route (record s { tunnels = (get_status s.tunnels).0 }, (200, body))
  halts :
      {name : String} {body : Body}
      → (stop_tunnel name s.tunnels).1 ≡ none
      → Serves out s
          (halt_tunnel name)
          (record s { tunnels = (stop_tunnel name s.tunnels).0 }, (200, body))
  misses :
      {name : String} (e : Tunnels.Error)
      → (stop_tunnel name s.tunnels).1 ≡ some e
      → Serves out s
          (halt_tunnel name)
          (record s { tunnels = (stop_tunnel name s.tunnels).0 }, (404, no_tunnel e))
  reloads :
      {config : Config} {body : Body}
      → out.loaded ≡ some config
      → Serves out s reload_config (record s { config = config }, (200, body))
  unloaded : {body : Body} → out.loaded ≡ none → Serves out s reload_config (s, (500, body))

module _ (out : Outside) (s : Shared) where
  answered-Answers :
      (good : ℕ) (body : Body) (bad : ℕ) (r : Store.Manager × Option Store.Error)
      → Answers s good bad r (answered s bad (good, body) r)
  unfolding answered
  answered-Answers good body bad (profiles, none) = fine refl
  answered-Answers good body bad (profiles, some e) = failing e refl

  text-cases : (t : String) → (t ≡ "") ⊎ ((t ≢ "") × ((t == "") ≡ false))
  text-cases t = elim (Bool-cases (t == "")) [
    | inl e ↦ inl ((eq_iff t "").0 e)
    | inr e ↦ inr (λ same. cc (sym e ∙ (eq_iff t "").1 same), e)
  ]

  handle_create_group-Serves :
      (name kind : String)
      → Serves out s (make_group (some (name, kind))) (handle_create_group out name kind s)
  unfolding handle_create_group
  handle_create_group-Serves name kind = elim (text-cases name) [
    | inl e ↦
        subst
          (λ (t : String).
            Serves out s (make_group (some (t, kind))) (handle_create_group out t kind s))
          (sym e) unnamed
    | inr (set, e) ↦
        rw (e, handle_create_group)
          (creates set (answered-Answers 201 (message "group created") 409 _))
  ]

  handle_add_link-Serves :
      (group uri : String)
      → Serves out s (put_link (some (group, uri))) (handle_add_link out group uri s)
  unfolding handle_add_link
  handle_add_link-Serves group uri = elim (text-cases uri) [
    | inl e ↦
        subst
          (λ (t : String).
            Serves out s (put_link (some (group, t))) (handle_add_link out group t s))
          (sym e) empty_uri
    | inr (set, e) ↦ elim (Result-cases (parse_uri out.decoders uri)) [
      | inl (link, f) ↦
          rw (e, f, handle_add_link)
            (adds set f (answered-Answers 201 (link_added link.remark link.protocol) 500 _))
      | inr (failure, f) ↦ rw (e, f, handle_add_link) (bad_link failure f)
    ]
  ]

  stopped_tunnel-Serves :
      (name : String)
      → Serves out s (halt_tunnel name) (stopped_tunnel s (stop_tunnel name s.tunnels))
  unfolding stopped_tunnel
  stopped_tunnel-Serves name = elim (Option-cases (stop_tunnel name s.tunnels).1) [
    | inl e ↦ rw e (halts e)
    | inr (failure, e) ↦ rw e (misses failure e)
  ]

  handle_config_reload-Serves :
      (loaded : Option Config)
      → out.loaded ≡ loaded
      → Serves out s reload_config (handle_config_reload s loaded)
  unfolding handle_config_reload reload
  handle_config_reload-Serves none e = unloaded e
  handle_config_reload-Serves (some config) e = reloads e

  pub handle-Serves : (route : Route) → Serves out s route (handle out route s)
  unfolding handle handle_update_subscription fixed_code get_group
  handle-Serves show_status = looks (inl refl)
  handle-Serves list_all_groups = reads refl
  handle-Serves (show_group name) = elim (Option-cases (lookup name s.profiles.groups)) [
    | inl e ↦ rw (e, handle, get_group) (reads (rw (e, fixed_code) refl))
    | inr (g, e) ↦ rw (e, handle, get_group) (reads (rw (e, fixed_code) refl))
  ]
  handle-Serves (make_group none) = reads refl
  handle-Serves (make_group (some (name, kind))) = handle_create_group-Serves name kind
  handle-Serves (drop_group name) = drops (answered-Answers 200 _ 404 _)
  handle-Serves (put_link none) = reads refl
  handle-Serves (put_link (some (group, uri))) = handle_add_link-Serves group uri
  handle-Serves (drop_link group remark) = removes (answered-Answers 200 _ 404 _)
  handle-Serves list_tunnels = looks (inr refl)
  handle-Serves (start_tunnel_of false) = reads refl
  handle-Serves (start_tunnel_of true) = reads refl
  handle-Serves (halt_tunnel name) = stopped_tunnel-Serves name
  handle-Serves list_chains = reads refl
  handle-Serves list_engines = reads refl
  handle-Serves (update_group group) = updates _ refl (answered-Answers 200 _ 500 _)
  handle-Serves reload_config = handle_config_reload-Serves out.loaded refl
  handle-Serves show_metrics = reads refl
