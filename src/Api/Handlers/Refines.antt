-- ===== src/Api/Handlers/Refines.antt =====
-- That the interface only makes the calls of the managers, and none without the token.
use bypath.Base.{ℕ, String, string_eq, ap, subst, Option, Dict, ◌≡◌, refl, inl, inr, ◌⊎◌}
use bypath.Config.{Config}
use bypath.Profile.Store as Store
use bypath.Profile.Store.{new_manager, get_group, create_group, add_link, delete_group, remove_link}
use bypath.Profile.Store.Dir.{Content}
use bypath.Profile.History as Profiles
use bypath.Profile.History.{Call, add, remove, create, drop, update}
use bypath.Tunnel.Manager.History as Histories
use bypath.Tunnel.Manager.History.{Step, stop, status, no_tunnels}
use bypath.Api.Auth.{Request, Answer, served, unauthorized, middleware, Shows, middleware_iff}
use bypath.Api.Handlers.{Shared, Outside, Route, Body, Response, serve_request}
use bypath.Api.Handlers.Serves.{
  Answers, fine, failing, Serves, reads, unnamed, creates, empty_uri, bad_link, adds, drops,
  removes, updates, looks, halts, misses, reloads, unloaded, or_basic, or_default_group,
  handle-Serves,
}

-- How a request ends: it is refused, with no change, or served by its route.
pub data Refines (token : String) (out : Outside) (headers : Request) (s : Shared) (route : Route)
    : Shared × Response → Type 0 where
  refused :
      {body : Body} → ¬ Shows token headers → Refines token out headers s route (s, (401, body))
  handled :
      {r : Shared × Response}
      → Shows token headers
      → Serves out s route r
      → Refines token out headers s route r

Answer-cases : (a : Answer) → (a ≡ served) ⊎ ((text : String) × (a ≡ unauthorized text))
Answer-cases served = inl refl
Answer-cases (unauthorized text) = inr (text, refl)

denied :
    (token : String) (headers : Request) (text : String)
    → middleware token headers ≡ unauthorized text
    → ¬ Shows token headers
denied token headers text e shows =
    let passed : middleware token headers ≡ served = (middleware_iff token headers).1 shows in cc

module _ (out : Outside) (s : Shared) where
  serve_request-Step :
      (token : String) (headers : Request) (route : Route)
      → Refines token out headers s route (serve_request token out headers route s)
  unfolding serve_request
  serve_request-Step token headers route = elim (Answer-cases (middleware token headers)) [
    | inl e ↦
        rw (e, serve_request)
          (handled ((middleware_iff token headers).0 e) (handle-Serves out s route))
    | inr (text, e) ↦ rw (e, serve_request) (refused (denied token headers text e))
  ]

module _ (token active_group : String) (entries : Dict Content) where
  -- the states that requests lead to, from the start of the program on
  pub data Runs : Shared → Type 0 where
    begins :
        (config : Config)
        → Runs (record {
          profiles = new_manager entries active_group;
          tunnels = no_tunnels;
          config = config;
        })
    requested :
        {s : Shared} (out : Outside) (headers : Request) (route : Route)
        → Runs s
        → Runs (serve_request token out headers route s).0

  -- what a run keeps of the managers
  abbrev Reaches : Shared → Type 0
  Reaches s = Profiles.Reached entries active_group s.profiles × Histories.Reached s.tunnels

  Answers-Reached :
      (out : Outside) {s : Shared} {good bad : ℕ} {r : Store.Manager × Option Store.Error}
      {t : Shared × Response}
      → Answers s good bad r t
      → Call out.write out.removable s.profiles r.0
      → Reaches s
      → Reaches t.0
  Answers-Reached out (fine e) call (p, t) = (Profiles.next out.write out.removable p call, t)
  Answers-Reached out (failing e f) call (p, t) = (Profiles.next out.write out.removable p call, t)

  Serves-Reaches :
      {out : Outside} {s : Shared} {route : Route} {r : Shared × Response}
      → Serves out s route r
      → Reaches s
      → Reaches r.0
  Serves-Reaches (reads e) h = h
  Serves-Reaches unnamed h = h
  Serves-Reaches {out} (creates {name} {kind} set a) h =
      Answers-Reached out a (create name (or_basic kind)) h
  Serves-Reaches empty_uri h = h
  Serves-Reaches (bad_link e f) h = h
  Serves-Reaches {out} (adds {group} {link = link} set f a) h =
      Answers-Reached out a (add (or_default_group group) link) h
  Serves-Reaches {out} (drops {name} a) h = Answers-Reached out a (drop name) h
  Serves-Reaches {out} (removes {group} {remark} a) h =
      Answers-Reached out a (remove group remark) h
  Serves-Reaches {out} {s} (updates {group} n {m} {e} f a) h =
      Answers-Reached out a
        (subst (Call out.write out.removable s.profiles)
          (ap (λ (x : Store.Manager × ℕ × Option Store.Error). x.0) f) (update out.fetch group))
        h
  Serves-Reaches (looks which) (p, t) = (p, Histories.next t status)
  Serves-Reaches (halts {name} e) (p, t) = (p, Histories.next t (stop name))
  Serves-Reaches (misses {name} e f) (p, t) = (p, Histories.next t (stop name))
  Serves-Reaches (reloads e) h = h
  Serves-Reaches (unloaded e) h = h

  Refines-Reaches :
      {out : Outside} {headers : Request} {s : Shared} {route : Route} {r : Shared × Response}
      → Refines token out headers s route r
      → Reaches s
      → Reaches r.0
  Refines-Reaches (refused hidden) h = h
  Refines-Reaches (handled shows serves) h = Serves-Reaches serves h

  Runs-Reaches : {s : Shared} → Runs s → Reaches s
  Runs-Reaches (begins config) = (Profiles.start, Histories.fresh)
  Runs-Reaches (requested {s} out headers route before) =
      Refines-Reaches (serve_request-Step out s token headers route) (Runs-Reaches before)

  -- After any requests: the profiles and the tunnels are what calls of their managers lead to. And the next
  -- request changes nothing and is answered 401, if it does not show the token. Else it makes the one call
  -- of a manager that stands for its route, with the group, link or tunnel that it names, or takes over
  -- the configuration that was loaded, or changes nothing for a route that only reads, for the start of a
  -- tunnel (which is answered, but starts none) and for a body that is no good; and it is answered with the code of the route for success, for a failed call, or for a
  -- bad body.
  pub serve_request-Refines :
      {s : Shared} (out : Outside) (headers : Request) (route : Route)
      → Runs s
      → (Profiles.Reached entries active_group s.profiles × Histories.Reached s.tunnels)
        × Refines token out headers s route (serve_request token out headers route s)
  serve_request-Refines {s} out headers route before =
      (Runs-Reaches before, serve_request-Step out s token headers route)
