-- ===== src/Profile/Store/Removal.antt =====
-- What `RemoveLink` does on each of its branches.
use bypath.Base.{
  String, string_eq, List, [], ◌∷◌, ◌++◌, Option, none, some, ◌≡◌, ◌⊎◌, inl, inr, refl, eq_iff,
  ◌==◌, lookup, Bool-cases, Option-cases,
}
use bypath.Profile.{Link, Group}
use bypath.Profile.Store.{
  Manager, Error, group_not_found, link_not_found, cut_link, remove_link, put_group,
}
use bypath.Profile.Store.Dir.{Write}
use bypath.Profile.Store.Links.{Lacks, IsFirst, IsFirst-cons, ne_of_false}

-- The outcomes of `RemoveLink`: the manager and its error.
pub data Removal (w : Write) (name remark : String) (m : Manager)
    : Manager × Option Error → Type 0 where
  no_group : lookup name m.groups ≡ none → Removal w name remark m (m, some group_not_found)
  no_link :
      {g : Group}
      → lookup name m.groups ≡ some g
      → Lacks remark g.links
      → Removal w name remark m (m, some link_not_found)
  removed :
      (g : Group) (l : Link)
      → lookup name m.groups ≡ some g
      → (first : IsFirst remark g.links l)
      → Removal w name remark m
          (put_group w name (record g { links = first.front ++ first.back }) m)

cut_link-cases :
    (remark : String) (ls : List Link)
    → ((cut_link remark ls ≡ none) × Lacks remark ls)
      ⊎ ((l : Link) × (first : IsFirst remark ls l) × (cut_link remark ls
            ≡ some (first.front ++ first.back)))
unfolding cut_link IsFirst-cons
cut_link-cases remark [] = inl (refl, tt)
cut_link-cases remark (x ∷ ls) = elim (Bool-cases (x.remark == remark)) [
  | inl here ↦ inr (
    x,
    record {
      front = [];
      back = ls;
      splits = refl;
      matches = (eq_iff x.remark remark).0 here;
      none_before = tt;
    },
    rw (here, cut_link),
  )
  | inr other ↦
      let differs = ne_of_false x.remark remark other in
      elim (cut_link-cases remark ls) [
        | inl (missing, lacks) ↦
            inl (rw (other, cut_link) (rw (missing, cut_link)), (differs, lacks))
        | inr (l, first, cut) ↦
            inr (
              l,
              IsFirst-cons remark x ls l differs first,
              rw (other, cut_link) (rw (cut, cut_link)),
            )
      ]
]

-- `RemoveLink` fails for a missing group and for a group that lacks the remark, and changes nothing
-- then; else it takes out the first link with the remark, keeps all others in their order, and saves.
pub remove_link-Removal :
    (w : Write) (name remark : String) (m : Manager)
    → Removal w name remark m (remove_link w name remark m)
unfolding remove_link
remove_link-Removal w name remark m = elim (Option-cases (lookup name m.groups)) [
  | inl missing ↦ rw (missing, remove_link) (no_group missing)
  | inr (g, found) ↦ elim (cut_link-cases remark g.links) [
    | inl (kept, lacks) ↦ rw (found, remove_link) (rw (kept, remove_link) (no_link found lacks))
    | inr (l, first, cut) ↦
        rw (found, remove_link) (rw (cut, remove_link) (removed g l found first))
  ]
]
