-- ===== src/Api/Handlers/Tests.antt =====
-- Requests that make a group, with the token and without.
use bypath.Base.{string_eq, true, [], none, some, lookup, insert, cut_first, ◌≡◌, refl}
use bypath.Profile.Parser.Interface.{Decoders}
use bypath.Profile.Store.{group_exists, create_group, new_manager, save_to, load_entries}
use bypath.Profile.Store.Dir.{written}
use bypath.Profile.History as Profiles
use bypath.Tunnel.Manager.History as Histories
use bypath.Tunnel.Manager.History.{no_tunnels}
use bypath.Gateway.Samples.{sample}
use bypath.Api.Auth.{Request, middleware, equal_fold}
use bypath.Api.Handlers.{
  Shared, Outside, Route, make_group, failed, message, answered, handle_create_group, handle,
  serve_request,
}
use bypath.Api.Handlers.Refines.{begins, requested, Refines, serve_request-Refines}

abbrev no_decoders : Decoders
no_decoders = record {
  parse_url = λ s. none;
  std_base64 = λ s. none;
  url_base64 = λ s. none;
  raw_std_base64 = λ s. none;
  raw_url_base64 = λ s. none;
  query_unescape = λ s. s;
  parse_vmess_json = λ s. none;
}

abbrev outside : Outside
outside = record {
  write = written;
  removable = true;
  fetch = λ url. none;
  loaded = none;
  order = λ groups. groups;
  decoders = no_decoders;
}

abbrev fresh : Shared
fresh = record { profiles = new_manager [] "home"; tunnels = no_tunnels; config = sample }

abbrev with_token : Request
with_token = record { authorization = "Bearer s3cret"; api_key = "" }

abbrev without_token : Request
without_token = record { authorization = ""; api_key = "" }

abbrev home : Route
home = make_group (some ("home", ""))

abbrev once : Shared
once = (serve_request "s3cret" outside with_token home fresh).0

first_made :
    (serve_request "s3cret" outside with_token home fresh).1 ≡ (201, message "group created")
unfolding serve_request handle handle_create_group answered create_group save_to middleware
    equal_fold cut_first new_manager load_entries lookup insert
first_made = refl

second_refused :
    (serve_request "s3cret" outside with_token home once).1 ≡ (409, failed group_exists)
unfolding serve_request handle handle_create_group answered create_group save_to middleware
    equal_fold cut_first new_manager load_entries lookup insert
second_refused = refl

without_token-denied :
    serve_request "s3cret" outside without_token home once
    ≡ (once, (401, message "missing authentication token"))
unfolding serve_request middleware
without_token-denied = refl

serve_request-Refines_example :
    (Profiles.Reached [] "home" once.profiles × Histories.Reached once.tunnels)
    × Refines "s3cret" outside without_token once home
        (serve_request "s3cret" outside without_token home once)
serve_request-Refines_example =
    serve_request-Refines "s3cret" "home" [] outside without_token home
      (requested outside with_token home (begins sample))
