-- ===== src/Profile/Tests.antt =====
-- Runs of the profile package on concrete inputs, and the theorems about it at such inputs.
use mathlib.Core.Option
use bypath.Base.{
  ℤ, pos, Bool, true, false, List, [], ◌∷◌, none, some, ◌≡◌, refl, Dict, lookup, insert, select,
  cut_last, contains,
}
use bypath.Profile.{Link, Group, zero_link}
use bypath.Profile.Cdn.{mark_cdn_detected, is_cdn_pattern}
use bypath.Profile.Select.{BenchResult, select_best}
use bypath.Profile.Select.Best.{Selects, select_best-Selects}
use bypath.Profile.Store.{
  Manager, new_manager, add_link, remove_link, get_active_link, get_link, loaded,
}
use bypath.Profile.Store.Dir.{
  Content, json, text, written, refused, persisted, unmarshal, is_json_name,
}
use bypath.Profile.Store.Links.{Resolves, get_link-Resolves}
use bypath.Profile.Store.Removal.{Removal, remove_link-Removal}
use bypath.Profile.Store.Shape.{IsKeyed}
use bypath.Profile.History.{
  is_plain_name, add, start, next, fresh, then, Reached-IsKeyed, restart-Durable,
}

abbrev front_link : Link
front_link = record zero_link {
  remark = "cdn";
  address = "1.2.3.4";
  port = pos 443;
  network = "ws";
  tls = true;
  host = "front.example";
}

front_link-cdn : is_cdn_pattern front_link ≡ true
unfolding is_cdn_pattern
front_link-cdn = refl

abbrev bench : ℤ → Bool → Bool → BenchResult
bench t secure ok = record { link = zero_link; latency = t; https_ok = secure; passed = ok }

abbrev benches : List BenchResult
benches =
    bench (pos 90) false true
    ∷ bench (pos 40) false true
    ∷ bench (pos 80) true true
    ∷ bench (pos 80) true true
    ∷ bench (pos 10) true false
    ∷ []

select_best_run : select_best benches ≡ record {
  best = some (bench (pos 80) true true);
  skipped = bench (pos 40) false true ∷ [];
  no_https = false;
}
unfolding select_best select
select_best_run = refl

select_best-Selects_example : Selects benches (select_best benches)
select_best-Selects_example = select_best-Selects benches

abbrev empty_manager : Manager
empty_manager = record { directory = []; groups = []; active_group = "default"; active_link = none }

abbrev home_group : Group
home_group = record {
  name = "home";
  kind = "basic";
  links = front_link ∷ (record zero_link { remark = "b" }) ∷ [];
  subscriptions = [];
}

abbrev home_manager : Manager
home_manager = record {
  directory = [];
  groups = ("home", home_group) ∷ [];
  active_group = "home";
  active_link = none;
}

get_link-Resolves_example :
    Resolves (home_group ∷ []) "b" home_manager (get_link (home_group ∷ []) "b" home_manager)
get_link-Resolves_example = get_link-Resolves (home_group ∷ []) "b" home_manager

remove_link-Removal_example :
    Removal written "home" "cdn" home_manager (remove_link written "home" "cdn" home_manager)
remove_link-Removal_example = remove_link-Removal written "home" "cdn" home_manager

abbrev stale : Dict Content
stale = ("old.json", json home_group) ∷ (".active", text "home\nb") ∷ []

Reached-IsKeyed_example : IsKeyed (add_link refused "home" zero_link (new_manager stale "home")).0
Reached-IsKeyed_example =
    Reached-IsKeyed stale "home" (next refused true start (add "home" zero_link))

abbrev saved_once : Manager
saved_once = (add_link written "home" front_link (new_manager [] "home")).0

plain_home : is_plain_name "home" ≡ true
unfolding contains
plain_home = refl

restart-Durable_example :
    lookup "home" (new_manager saved_once.directory "home").groups
    ≡ Option.map (λ g. loaded (persisted g)) (lookup "home" saved_once.groups)
restart-Durable_example =
    restart-Durable "home" "home" "home" (then fresh (add "home" front_link) plain_home)

-- the file `.active` names a link of the group that it names
active_run :
    Option.map
      (λ (l : Link). l.remark)
      (get_active_link (new_manager (("h.json", json home_group) ∷ stale) "x"))
    ≡ some "b"
unfolding new_manager get_active_link unmarshal is_json_name lookup insert mark_cdn_detected
    cut_last
active_run = refl
