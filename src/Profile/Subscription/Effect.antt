-- ===== src/Profile/Subscription/Effect.antt =====
-- What the methods of subscription.go do to the manager: nothing, or one group is put and saved.
use bypath.Base.{
  ℕ, ℤ, String, List, [], ◌∷◌, map, Option, none, some, ◌≡◌, refl, lookup, All, All-append,
  Option-cases, Bool-cases, inl, inr, any, length, ◌==◌, string_eq,
}
use bypath.Profile.{Link, Group, regroup}
use bypath.Profile.Store.{Manager, Error}
use bypath.Profile.Store.Dir.{Write}
use bypath.Profile.Store.Shape.{IsKeyed, found-IsOwned}
use bypath.Profile.Store.Effect.{Effect, unchanged, put}
use bypath.Profile.Subscription.{
  fetch_all, counted, replace_links, refresh, update_subscriptions, add_subscription, cut_at_int,
  remove_subscription,
}

map-regroup : (name : String) (ls : List Link) → All (λ l. l.group ≡ name) (map (regroup name) ls)
map-regroup name [] = tt
map-regroup name (l ∷ ls) = (refl, map-regroup name ls)

fetch_all-All :
    (fetch : String → Option (List Link)) (name : String) (urls : List String)
    → All (λ l. l.group ≡ name) (fetch_all fetch name urls)
unfolding fetch_all
fetch_all-All fetch name [] = tt
fetch_all-All fetch name (url ∷ urls) = elim (Option-cases (fetch url)) [
  | inl failed ↦ rw (failed, fetch_all) (fetch_all-All fetch name urls)
  | inr (ls, fetched) ↦
      rw (fetched, fetch_all)
        (All-append _ (map (regroup name) ls) _ (map-regroup name ls)
          (fetch_all-All fetch name urls))
]

counted-fst : (n : ℕ) (r : Manager × Option Error) → (counted n r).0 ≡ r.0
counted-fst n (m, none) = refl
counted-fst n (m, some e) = refl

replace_links-Effect :
    (w : Write) (name : String) (g : Group) (ls : List Link) (m : Manager)
    → g.name ≡ name
    → All (λ l. l.group ≡ name) ls
    → IsKeyed m
    → Effect w name m (replace_links w name g ls m).0
unfolding replace_links
replace_links-Effect w name g [] m named h k = unchanged
replace_links-Effect w name g (l ∷ ls) m named h k =
    rw (counted-fst (length (l ∷ ls))) (put _ (named, h))

pub update_subscriptions-Effect :
    (w : Write) (fetch : String → Option (List Link)) (name : String) (m : Manager)
    → IsKeyed m
    → Effect w name m (update_subscriptions w fetch name m).0
unfolding update_subscriptions
update_subscriptions-Effect w fetch name m k = elim (Option-cases (lookup name m.groups)) [
  | inl missing ↦ rw (missing, update_subscriptions) unchanged
  | inr (g, found) ↦
      rw (found, update_subscriptions) (step g g.subscriptions (found-IsOwned name m found k).0)
]
  where
    step :
        (g : Group) (urls : List String)
        → g.name ≡ name
        → Effect w name m (refresh w fetch name g urls m).0
    step g [] named = unchanged
    step g (url ∷ urls) named =
        replace_links-Effect w name g _ m named (fetch_all-All fetch name (url ∷ urls)) k

pub add_subscription-Effect :
    (w : Write) (name url : String) (m : Manager)
    → IsKeyed m
    → Effect w name m (add_subscription w name url m).0
unfolding add_subscription
add_subscription-Effect w name url m k = elim (Option-cases (lookup name m.groups)) [
  | inl missing ↦ rw (missing, add_subscription) unchanged
  | inr (g, found) ↦ elim (Bool-cases (any (λ existing. existing == url) g.subscriptions)) [
    | inl twice ↦ rw (found, add_subscription) (rw (twice, add_subscription) unchanged)
    | inr fresh ↦
        rw (found, add_subscription)
          (rw (fresh, add_subscription) (put _ (found-IsOwned name m found k)))
  ]
]

pub remove_subscription-Effect :
    (w : Write) (name : String) (idx : ℤ) (m : Manager)
    → IsKeyed m
    → Effect w name m (remove_subscription w name idx m).0
unfolding remove_subscription
remove_subscription-Effect w name idx m k = elim (Option-cases (lookup name m.groups)) [
  | inl missing ↦ rw (missing, remove_subscription) unchanged
  | inr (g, found) ↦ elim (Option-cases (cut_at_int idx g.subscriptions)) [
    | inl out ↦ rw (found, remove_subscription) (rw (out, remove_subscription) unchanged)
    | inr (left, cut) ↦
        rw (found, remove_subscription)
          (rw (cut, remove_subscription) (put _ (found-IsOwned name m found k)))
  ]
]
