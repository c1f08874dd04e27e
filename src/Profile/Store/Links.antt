-- ===== src/Profile/Store/Links.antt =====
-- Which link `GetLink` finds, and which `RemoveLink` takes out.
use mathlib.Core.Option.{some-injective, none-ne-some}
use bypath.Base.{
  String, string_eq, false, List, [], ◌∷◌, ◌++◌, Option, none, some, ◌≡◌, ◌≢◌, ◌⊎◌, inl, inr, refl,
  sym, ap, subst, ◌∙◌, eq_iff, ◌==◌, lookup, All, Bool-cases, Option-cases,
}
use bypath.Profile.{Link, Group}
use bypath.Profile.Store.{Manager, find_link, find_in_groups, get_link}

abbrev pub Lacks : String → List Link → Type 0
Lacks remark = All (λ l. l.remark ≢ remark)

-- `l` is the first link with the remark in a list
pub record IsFirst (remark : String) (ls : List Link) (l : Link) : Type 0 where
  pub front : List Link
  pub back : List Link
  pub splits : ls ≡ front ++ l ∷ back
  pub matches : l.remark ≡ remark
  pub none_before : Lacks remark front

unfoldable pub IsFirst-cons :
    (remark : String) (x : Link) (ls : List Link) (l : Link)
    → x.remark ≢ remark
    → IsFirst remark ls l
    → IsFirst remark (x ∷ ls) l
IsFirst-cons remark x ls l other f = record {
  front = x ∷ f.front;
  back = f.back;
  splits = ap (λ r. x ∷ r) f.splits;
  matches = f.matches;
  none_before = (other, f.none_before);
}

pub ne_of_false : (a b : String) → (a == b) ≡ false → a ≢ b
ne_of_false a b h e = cc (sym h ∙ (eq_iff a b).1 e)

find_link-cases :
    (remark : String) (ls : List Link)
    → ((find_link remark ls ≡ none) × Lacks remark ls)
      ⊎ ((l : Link) × (find_link remark ls ≡ some l) × IsFirst remark ls l)
unfolding find_link
find_link-cases remark [] = inl (refl, tt)
find_link-cases remark (x ∷ ls) = elim (Bool-cases (x.remark == remark)) [
  | inl here ↦ inr (
    x,
    rw (here, find_link),
    record {
      front = [];
      back = ls;
      splits = refl;
      matches = (eq_iff x.remark remark).0 here;
      none_before = tt;
    },
  )
  | inr other ↦ elim (find_link-cases remark ls) [
    | inl (missing, lacks) ↦
        inl (rw (other, find_link) missing, (ne_of_false x.remark remark other, lacks))
    | inr (l, found, first) ↦ inr (
      l,
      rw (other, find_link) found,
      IsFirst-cons remark x ls l (ne_of_false x.remark remark other) first,
    )
  ]
]

-- `l` is the first link with the remark in the first group of a list that has one.
pub record IsFirstOf (remark : String) (gs : List Group) (l : Link) : Type 0 where
  pub lacking : List Group
  pub holder : Group
  pub later : List Group
  pub order : gs ≡ lacking ++ holder ∷ later
  pub all_lack : All (λ g. Lacks remark g.links) lacking
  pub holds : IsFirst remark holder.links l

unfoldable IsFirstOf-cons :
    (remark : String) (g : Group) (gs : List Group) (l : Link)
    → Lacks remark g.links
    → IsFirstOf remark gs l
    → IsFirstOf remark (g ∷ gs) l
IsFirstOf-cons remark g gs l lacks f = record {
  lacking = g ∷ f.lacking;
  holder = f.holder;
  later = f.later;
  order = ap (λ r. g ∷ r) f.order;
  all_lack = (lacks, f.all_lack);
  holds = f.holds;
}

-- What `GetLink` may return for a manager, when `range` goes over its groups in the order `order`.
pub data Resolves (order : List Group) (remark : String) (m : Manager) : Option Link → Type 0 where
  in_active :
      {g : Group} {l : Link}
      → lookup m.active_group m.groups ≡ some g
      → IsFirst remark g.links l
      → Resolves order remark m (some l)
  elsewhere :
      {l : Link}
      → ((g : Group) → lookup m.active_group m.groups ≡ some g → Lacks remark g.links)
      → IsFirstOf remark order l
      → Resolves order remark m (some l)
  nowhere :
      ((g : Group) → lookup m.active_group m.groups ≡ some g → Lacks remark g.links)
      → All (λ g. Lacks remark g.links) order
      → Resolves order remark m none

find_in_groups-cases :
    (remark : String) (gs : List Group)
    → ((find_in_groups remark gs ≡ none) × All (λ g. Lacks remark g.links) gs)
      ⊎ ((l : Link) × (find_in_groups remark gs ≡ some l) × IsFirstOf remark gs l)
unfolding find_in_groups
find_in_groups-cases remark [] = inl (refl, tt)
find_in_groups-cases remark (g ∷ gs) = elim (find_link-cases remark g.links) [
  | inr (l, found, first) ↦ inr (
    l,
    rw (found, find_in_groups),
    record { lacking = []; holder = g; later = gs; order = refl; all_lack = tt; holds = first },
  )
  | inl (missing, lacks) ↦ elim (find_in_groups-cases remark gs) [
    | inl (none_left, all_lack) ↦ inl (rw (missing, find_in_groups) none_left, (lacks, all_lack))
    | inr (l, found, first) ↦
        inr (l, rw (missing, find_in_groups) found, IsFirstOf-cons remark g gs l lacks first)
  ]
]

-- The rest of the search, once the active group is known to lack the remark.
others-Resolves :
    (order : List Group) (remark : String) (m : Manager)
    → ((g : Group) → lookup m.active_group m.groups ≡ some g → Lacks remark g.links)
    → Resolves order remark m (find_in_groups remark order)
others-Resolves order remark m lacks = elim (find_in_groups-cases remark order) [
  | inl (missing, all_lack) ↦ rw missing (nowhere lacks all_lack)
  | inr (l, found, first) ↦ rw found (elsewhere lacks first)
]

-- `GetLink` returns the first link with the remark in the active group; if that group has none (or
-- is missing), the first such link of the first group of the order that has one, the groups before it
-- lacking the remark; and nothing exactly if none has one.
pub get_link-Resolves :
    (order : List Group) (remark : String) (m : Manager)
    → Resolves order remark m (get_link order remark m)
unfolding get_link
get_link-Resolves order remark m = elim (Option-cases (lookup m.active_group m.groups)) [
  | inl missing ↦
      rw (missing, get_link)
        (others-Resolves order remark m (λ g e. absurd (none-ne-some g (sym missing ∙ e))))
  | inr (g, active) ↦ elim (find_link-cases remark g.links) [
    | inr (l, found, first) ↦ rw (active, get_link) (rw (found, get_link) (in_active active first))
    | inl (absent, lacks) ↦
        rw (active, get_link)
          (rw (absent, get_link)
            (others-Resolves order remark m (λ h e.
              subst (λ (x : Group). Lacks remark x.links) (some-injective g h (sym active ∙ e))
                lacks)))
  ]
]
