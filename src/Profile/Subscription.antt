-- ===== src/Profile/Subscription.antt =====
-- internal/profile/subscription.go: the subscriptions of a group. What `FetchSubscription` returns
-- for an address is the argument `fetch`, `none` for an error.
pub mod Effect
use bypath.Base.{
  ℕ, suc, ℤ, pos, negsuc, String, string_eq, List, [], ◌∷◌, ◌++◌, map, Option, none, some,
  if◌then◌else◌, ◌==◌, lookup, length, any,
}
use bypath.Profile.{Link, Group, regroup}
use bypath.Profile.Store.{
  Manager, Error, group_not_found, no_subscriptions, no_links_fetched, subscription_exists,
  index_out_of_range, put_group,
}
use bypath.Profile.Store.Dir.{Write}

-- the links of all addresses, with the group's name in each; an address that fails is passed over
unfoldable pub fetch_all : (String → Option (List Link)) → String → List String → List Link
fetch_all fetch name [] = []
fetch_all fetch name (url ∷ urls) =
    let rest = fetch_all fetch name urls in
    elim (fetch url) [ none ↦ rest | some links ↦ map (regroup name) links ++ rest ]

-- the number of links, 0 beside an error of the save
abbrev pub counted : ℕ → Manager × Option Error → Manager × ℕ × Option Error
counted n (m, none) = (m, n, none)
counted n (m, some e) = (m, 0, some e)

-- the links of a group replaced, if any were fetched
unfoldable pub replace_links :
    Write → String → Group → List Link → Manager → Manager × ℕ × Option Error
replace_links w name g [] m = (m, 0, some no_links_fetched)
replace_links w name g (l ∷ ls) m =
    counted (length (l ∷ ls)) (put_group w name (record g { links = l ∷ ls }) m)

unfoldable pub refresh :
    Write
    → (String → Option (List Link))
    → String
    → Group
    → List String
    → Manager
    → Manager × ℕ × Option Error
refresh w fetch name g [] m = (m, 0, some no_subscriptions)
refresh w fetch name g (url ∷ urls) m = replace_links w name g (fetch_all fetch name (url ∷ urls)) m

-- `UpdateSubscriptions`
unfoldable pub update_subscriptions :
    Write → (String → Option (List Link)) → String → Manager → Manager × ℕ × Option Error
unfolding fetch_all replace_links refresh
update_subscriptions w fetch name m = elim (lookup name m.groups) [
  | none ↦ (m, 0, some group_not_found)
  | some g ↦ refresh w fetch name g g.subscriptions m
]

-- `AddSubscription`
unfoldable pub add_subscription : Write → String → String → Manager → Manager × Option Error
add_subscription w name url m = elim (lookup name m.groups) [
  | none ↦ (m, some group_not_found)
  | some g ↦
      if any (λ existing. existing == url) g.subscriptions
      then (m, some subscription_exists)
      else put_group w name (record g { subscriptions = g.subscriptions ++ url ∷ [] }) m
]

-- the list without its element `i`; none if there is no such element
unfoldable pub cut_at : ℕ → List String → Option (List String)
cut_at i [] = none
cut_at ℕ.zero (url ∷ urls) = some urls
cut_at (suc i) (url ∷ urls) =
    let rest = cut_at i urls in elim rest [ none ↦ none | some left ↦ some (url ∷ left) ]

abbrev pub cut_at_int : ℤ → List String → Option (List String)
cut_at_int (pos i) urls = cut_at i urls
cut_at_int (negsuc i) urls = none

-- `RemoveSubscription`
unfoldable pub remove_subscription : Write → String → ℤ → Manager → Manager × Option Error
unfolding cut_at
remove_subscription w name idx m = elim (lookup name m.groups) [
  | none ↦ (m, some group_not_found)
  | some g ↦ elim (cut_at_int idx g.subscriptions) [
    | none ↦ (m, some index_out_of_range)
    | some left ↦ put_group w name (record g { subscriptions = left }) m
  ]
]
