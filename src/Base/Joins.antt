-- ===== src/Base/Joins.antt =====
-- `strings.Join`, `strings.Contains`, and texts of whole lines.
use Prim.Native.Nat.{ℕ, ◌-◌}
use Prim.Native.Char.{Char, code}
use Prim.Native.String.{String, [], ◌∷◌, char_at}
use mathlib.Core.Path.{◌≡◌, refl, sym, ap, ◌∙◌}
use mathlib.Core.Logic.{inl, inr, ◌↔◌}
use mathlib.Core.Bool.{Bool, true, false, ◌||◌, ◌&&◌}
use mathlib.Core.List.{List, [], ◌∷◌, ◌++◌}
use native.Mathlib.Omega.{arith}
use text.Mathlib.TextLemmas.{nil-append, cons-append, append-nil, append_assoc, cons≢nil}
use text.Mathlib.TextEquality.{eq_iff}
use bypath.Base.Tests.{leb, ◌==◌, nat_eq, string_eq, if◌then◌else◌, Bool-cases}
use bypath.Base.Lists.{All}
use bypath.Base.Text.{◌<>◌, contains, split, split_from, cut_prefix, has_prefix}

-- `strings.Join(parts, c)` for a separator of one character
unfoldable pub join : Char → List String → String
join c [] = ""
join c (x ∷ []) = x
join c (x ∷ y ∷ rest) = x <> (c ∷ join c (y ∷ rest))

-- `strings.Contains(s, part)`
unfoldable pub contains_text : String → String → Bool
unfolding has_prefix
contains_text [] part = part == ""
contains_text (c ∷ s) part = has_prefix (c ∷ s) part || contains_text s part

-- `strings.HasSuffix(s, c)` for one character
unfoldable pub ends_in : ℕ → String → Bool
ends_in sep [] = false
ends_in sep (c ∷ s) = if s == "" then code c == sep else ends_in sep s

has_prefix-append : (part behind : String) → has_prefix (part <> behind) part ≡ true
unfolding has_prefix cut_prefix
has_prefix-append [] behind = refl
has_prefix-append (c ∷ part) behind =
    rw (cons-append c part behind) (ground (arith, has_prefix-append part behind))

contains_text-prefix : (part behind : String) → contains_text (part <> behind) part ≡ true
unfolding contains_text
contains_text-prefix [] [] = refl
contains_text-prefix [] (c ∷ behind) = rw (nil-append (c ∷ behind)) refl
contains_text-prefix (c ∷ part) behind = rw (cons-append c part behind) (
    rw (sym (cons-append c part behind)) (
      ap (λ b. b || contains_text (part <> behind) (c ∷ part))
        (has_prefix-append (c ∷ part) behind)))

-- A text contains each of its parts.
pub contains_text-append :
    (before part behind : String) → contains_text (before <> (part <> behind)) part ≡ true
unfolding contains_text
contains_text-append [] part behind =
    rw (nil-append (part <> behind)) (contains_text-prefix part behind)
contains_text-append (c ∷ before) part behind =
    rw (cons-append c before (part <> behind))
      (ground (arith, contains_text-append before part behind))

snoc-append : (cur : String) (d : Char) (x : String) → (cur <> (d ∷ [])) <> x ≡ cur <> (d ∷ x)
snoc-append cur d x =
    append_assoc cur (d ∷ []) x
    ∙ ap (λ t. cur <> t) (cons-append d [] x ∙ ap (λ t. d ∷ t) (nil-append x))

pub cons-ne_empty : (c : Char) (s : String) → (String.◌∷◌ c s == "") ≡ false
cons-ne_empty c s = elim (Bool-cases (String.◌∷◌ c s == "")) [
  | inl e ↦ absurd (cons≢nil ((eq_iff (String.◌∷◌ c s) "").0 e))
  | inr e ↦ e
]

pub append-ne_empty : (s rest : String) → (rest == "") ≡ false → ((s <> rest) == "") ≡ false
append-ne_empty [] rest h = rw (nil-append rest) h
append-ne_empty (d ∷ s) rest h = rw (cons-append d s rest) (cons-ne_empty d (s <> rest))

module _ (c : Char) where
  split_from-append :
      (cur x rest : String)
      → contains (code c) x ≡ false
      → split_from (code c) cur (x <> (c ∷ rest)) ≡ (cur <> x) ∷ split (code c) rest
  unfolding split_from contains split
  split_from-append cur [] rest h =
      rw (nil-append (c ∷ rest)) (rw (append-nil cur) (ground (arith)))
  split_from-append cur (d ∷ x) rest h =
      rw (cons-append d x (c ∷ rest)) (elim (Bool-cases (code d == code c)) [
        | inl e ↦ ground (arith, h, e)
        | inr e ↦
            rw (e, split_from)
              (split_from-append (cur <> (d ∷ [])) x rest (rw (e, contains) at h)
                ∙ ap (λ t. t ∷ split (code c) rest) (snoc-append cur d x))
      ])

  split_from-whole :
      (cur x : String) → contains (code c) x ≡ false → split_from (code c) cur x ≡ (cur <> x) ∷ []
  unfolding split_from contains
  split_from-whole cur [] h = ap (λ t. t ∷ []) (sym (append-nil cur))
  split_from-whole cur (d ∷ x) h = elim (Bool-cases (code d == code c)) [
    | inl e ↦ ground (arith, h, e)
    | inr e ↦
        rw (e, split_from)
          (split_from-whole (cur <> (d ∷ [])) x (rw (e, contains) at h)
            ∙ ap (λ t. t ∷ []) (snoc-append cur d x))
  ]

  -- Parts without the separator come back from the text that joins them, if there is one.
  pub split-join :
      (x : String) (xs : List String)
      → All (λ s. contains (code c) s ≡ false) (x ∷ xs)
      → split (code c) (join c (x ∷ xs)) ≡ x ∷ xs
  unfolding split join
  split-join x [] (h, _) = split_from-whole "" x h ∙ ap (λ s. s ∷ []) (nil-append x)
  split-join x (y ∷ xs) (h, rest) =
      split_from-append "" x (join c (y ∷ xs)) h
      ∙ ap (λ s. s ∷ split (code c) (join c (y ∷ xs))) (nil-append x)
      ∙ ap (λ r. x ∷ r) (split-join y xs rest)

  -- a text of whole lines: each has the separator behind it
  abbrev pub whole_lines : List String → String
  whole_lines ls = join c (ls ++ ("" ∷ []))

  -- `fmt.Sprintf("%s\n", last)` behind a text of lines
  pub whole_lines-append :
      (ls : List String) (last : String)
      → whole_lines ls <> (last <> (c ∷ [])) ≡ whole_lines (ls ++ (last ∷ []))
  unfolding join
  whole_lines-append [] last = nil-append (last <> (c ∷ []))
  whole_lines-append (x ∷ []) last =
      append_assoc x (c ∷ "") (last <> (c ∷ []))
      ∙ ap (λ t. x <> t) (cons-append c "" _ ∙ ap (λ t. c ∷ t) (nil-append _))
  whole_lines-append (x ∷ y ∷ ls) last =
      append_assoc x _ (last <> (c ∷ []))
      ∙ ap (λ t. x <> t) (cons-append c _ _ ∙ ap (λ t. c ∷ t) (whole_lines-append (y ∷ ls) last))

  code_refl : (code c == code c) ≡ true
  code_refl = (nat_eq.test_iff (code c) (code c)).1 refl

  ends_in-cons : (s : String) → ends_in (code c) s ≡ true → ends_in (code c) (c ∷ s) ≡ true
  unfolding ends_in
  ends_in-cons s h = elim (Bool-cases (s == "")) [
    | inl e ↦ rw (e, ends_in) code_refl
    | inr e ↦ rw (e, ends_in) h
  ]

  ends_in-append :
      (s rest : String)
      → (rest == "") ≡ false
      → ends_in (code c) (s <> rest) ≡ ends_in (code c) rest
  unfolding ends_in
  ends_in-append [] rest h = ap (ends_in (code c)) (nil-append rest)
  ends_in-append (d ∷ s) rest h =
      rw (cons-append d s rest) (rw (append-ne_empty s rest h, ends_in) (ends_in-append s rest h))

  pub ends_in-whole_lines :
      (x : String) (ls : List String) → ends_in (code c) (whole_lines (x ∷ ls)) ≡ true
  unfolding join ends_in
  ends_in-whole_lines x [] = ends_in-append x (c ∷ "") (cons-ne_empty c "") ∙ code_refl
  ends_in-whole_lines x (y ∷ ls) =
      ends_in-append x (c ∷ whole_lines (y ∷ ls)) (cons-ne_empty c _)
      ∙ ends_in-cons (whole_lines (y ∷ ls)) (ends_in-whole_lines y ls)

pub contains-append :
    (sep : ℕ) (s t : String) → contains sep (s <> t) ≡ (contains sep s || contains sep t)
unfolding contains
contains-append sep [] t = ap (contains sep) (nil-append t)
contains-append sep (c ∷ s) t = rw (cons-append c s t) (ground (arith, contains-append sep s t))

-- `strings.HasSuffix(s, part)`
unfoldable pub has_suffix : String → String → Bool
has_suffix [] part = "" == part
has_suffix (c ∷ s) part = String.◌∷◌ c s == part || has_suffix s part

has_suffix-front :
    (s part : String) → has_suffix s part ≡ true → (front : String) × (s ≡ front <> part)
unfolding has_suffix
has_suffix-front [] part h = ("", (eq_iff "" part).0 h ∙ sym (nil-append part))
has_suffix-front (c ∷ s) part h = elim (Bool-cases (String.◌∷◌ c s == part)) [
  | inl e ↦ ("", (eq_iff _ part).0 e ∙ sym (nil-append part))
  | inr e ↦
      let (front, same) = has_suffix-front s part (rw (e, has_suffix) at h) in
      (c ∷ front, ap (λ t. c ∷ t) same ∙ sym (cons-append c front part))
]

has_suffix_refl : (part : String) → has_suffix part part ≡ true
unfolding has_suffix
has_suffix_refl [] = refl
has_suffix_refl (c ∷ s) = rw ((eq_iff (String.◌∷◌ c s) (c ∷ s)).1 refl) refl

has_suffix-append : (front part : String) → has_suffix (front <> part) part ≡ true
unfolding has_suffix
has_suffix-append [] part = ap (λ t. has_suffix t part) (nil-append part) ∙ has_suffix_refl part
has_suffix-append (c ∷ front) part =
    rw (cons-append c front part) (ground (arith, has_suffix-append front part))

pub has_suffix_iff :
    (s part : String) → (has_suffix s part ≡ true) ↔ ((front : String) × (s ≡ front <> part))
has_suffix_iff s part = (
  has_suffix-front s part,
  λ (front, e). ap (λ t. has_suffix t part) e ∙ has_suffix-append front part,
)

-- a letter in lower case
abbrev lower_char : Char → Char
lower_char c =
    if leb b'A' (code c) && leb (code c) b'Z'
    then char_at "abcdefghijklmnopqrstuvwxyz" (code c - b'A')
    else c

-- `strings.ToLower` on ASCII
unfoldable pub to_lower : String → String
to_lower [] = []
to_lower (c ∷ s) = lower_char c ∷ to_lower s

-- `strings.TrimSuffix(s, c)` for one character
unfoldable pub trim_end : ℕ → String → String
trim_end sep [] = []
trim_end sep (c ∷ s) =
    let rest = trim_end sep s in if code c == sep && s == "" then "" else c ∷ rest

lower_tests : (to_lower "Nas.HOME." ≡ "nas.home.") × (trim_end b'.' "nas.home." ≡ "nas.home")
unfolding to_lower trim_end
lower_tests = (refl, refl)
