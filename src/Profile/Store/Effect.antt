-- ===== src/Profile/Store/Effect.antt =====
-- What the methods of profile.go do to the manager: nothing, or one group is put under its name and
-- saved, or a group is saved again.
use mathlib.Core.Option.{some-injective}
use bypath.Base.{
  String, List, [], ◌∷◌, some, ◌≡◌, refl, lookup, All, All-append, Option-cases, inl, inr,
  Bool-cases, ◌==◌, string_eq, subst,
}
use bypath.Profile.{Link, Group}
use bypath.Profile.Store.{
  Manager, put_group, save_to, add_link, remove_link, cut_link, create_group, save_group,
}
use bypath.Profile.Store.Dir.{Write}
use bypath.Profile.Store.Shape.{IsOwned, IsKeyed, found-IsOwned, put_group-IsKeyed, save_to-IsKeyed}

pub data Effect (w : Write) (name : String) (m : Manager) : Manager → Type 0 where
  unchanged : Effect w name m m
  put : (g : Group) → IsOwned name g → Effect w name m (put_group w name g m).0
  resaved : (g : Group) → lookup name m.groups ≡ some g → Effect w name m (save_to w g m).0

pub add_link-Effect :
    (w : Write) (name : String) (link : Link) (m : Manager)
    → IsKeyed m
    → Effect w name m (add_link w name link m).0
unfolding add_link
add_link-Effect w name link m k = elim (Option-cases (lookup name m.groups)) [
  | inl missing ↦ rw missing (put _ (refl, (refl, tt)))
  | inr (g, found) ↦
      let (named, links) = found-IsOwned name m found k in
      rw found (put _ (named, All-append _ g.links _ links (refl, tt)))
]

cut_link-All :
    (P : Link → Type 0) (remark : String) (ls : List Link) {left : List Link}
    → cut_link remark ls ≡ some left
    → All P ls
    → All P left
unfolding cut_link
cut_link-All P remark [] e h = cc
cut_link-All P remark (l ∷ ls) {left} e (p, h) = elim (Bool-cases (l.remark == remark)) [
  | inl same ↦ subst (All P) (some-injective ls left (rw (same, cut_link) at e)) h
  | inr other ↦ elim (Option-cases (cut_link remark ls)) [
    | inl kept ↦ cc (rw (other, cut_link) at e, kept)
    | inr (shorter, cut) ↦
        subst (All P)
          (some-injective (l ∷ shorter) left (rw (other, cut_link) at (rw (cut, cut_link) at e)))
          (p, cut_link-All P remark ls cut h)
  ]
]

pub remove_link-Effect :
    (w : Write) (name remark : String) (m : Manager)
    → IsKeyed m
    → Effect w name m (remove_link w name remark m).0
unfolding remove_link
remove_link-Effect w name remark m k = elim (Option-cases (lookup name m.groups)) [
  | inl missing ↦ rw (missing, remove_link) unchanged
  | inr (g, found) ↦ elim (Option-cases (cut_link remark g.links)) [
    | inl kept ↦ rw (found, remove_link) (rw (kept, remove_link) unchanged)
    | inr (left, cut) ↦
        let (named, links) = found-IsOwned name m found k in
        rw (found, remove_link)
          (rw (cut, remove_link) (put _ (named, cut_link-All _ remark g.links cut links)))
  ]
]

pub create_group-Effect :
    (w : Write) (name kind : String) (m : Manager)
    → IsKeyed m
    → Effect w name m (create_group w name kind m).0
unfolding create_group
create_group-Effect w name kind m k = elim (Option-cases (lookup name m.groups)) [
  | inl missing ↦ rw (missing, create_group) (put _ (refl, tt))
  | inr (g, found) ↦ rw (found, create_group) unchanged
]

pub save_group-Effect :
    (w : Write) (name : String) (m : Manager) → IsKeyed m → Effect w name m (save_group w name m).0
unfolding save_group
save_group-Effect w name m k = elim (Option-cases (lookup name m.groups)) [
  | inl missing ↦ rw (missing, save_group) unchanged
  | inr (g, found) ↦ rw (found, save_group) (resaved _ found)
]

pub Effect-IsKeyed :
    {w : Write} {name : String} {m m' : Manager} → Effect w name m m' → IsKeyed m → IsKeyed m'
Effect-IsKeyed unchanged k = k
Effect-IsKeyed {w} {name} {m} (put g o) k = put_group-IsKeyed w name g m o k
Effect-IsKeyed {w} {m} (resaved g found) k = save_to-IsKeyed w g m k
