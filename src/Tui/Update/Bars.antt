-- ===== src/Tui/Update/Bars.antt =====
-- The texts of the actions that name a group and a number, with a bar between them: what is read of them.
use Prim.Native.Char.{code}
use Prim.Native.String.{[], ◌∷◌}
use bypath.Base.{
  subst, ap, ◌<◌, digit, arith, pos, ℕ, ◌+◌, ◌-◌, ◌*◌, ◌^◌, leb, String, string_eq, nat_eq, true,
  false, ◌==◌, Option, none, some, ◌≡◌, refl, sym, ◌∙◌, ◌⊎◌, inl, inr, ◌<>◌, cut_first, contains,
  digits_value, atoi, clamp_pos, clamp_neg, unsigned_value, is_digit, Bool-cases, format_nat,
  contains-append,
}
use bypath.Base.{
  digit-is_digit, digit-code, cancel_zero, value-format_nat, format_nat-StartsInDigit,
  StartsInDigit,
}
use mathlib.Core.Option.{some-injective}
use text.Mathlib.TextLemmas.{cons-append, nil-append}

-- a text with a bar is no number
digits_value-bar : (n : ℕ) (s : String) → contains b'|' s ≡ true → digits_value n s ≡ none
unfolding contains digits_value is_digit
digits_value-bar n [] e = cc
digits_value-bar n (c ∷ s) e = ground (arith, e, digits_value-bar (n * 10 + (code c - b'0')) s)

atoi-bar : (s : String) → contains b'|' s ≡ true → atoi s ≡ pos 0
unfolding atoi contains digits_value is_digit unsigned_value clamp_pos clamp_neg
atoi-bar [] e = cc
atoi-bar (c ∷ []) e = ground (arith, e)
atoi-bar (c ∷ d ∷ s) e =
    ground (arith, e, digits_value-bar 0 (d ∷ s), digits_value-bar 0 (c ∷ d ∷ s))

-- a printed number is read back, if it fits an int
reads_digit :
    (n d : ℕ) (s : String) → d < 10 → digits_value n (digit d ∷ s) ≡ digits_value (n * 10 + d) s
unfolding digits_value
reads_digit n d s h =
    rw (digit-is_digit d h)
      (ap (λ k. digits_value (n * 10 + k) s) (ap (λ k. k - 48) (digit-code d h) ∙ cancel_zero d))

atoi-digits :
    (n : ℕ) (s : String)
    → n < 2 ^ 63
    → StartsInDigit s
    → digits_value 0 s ≡ digits_value n ""
    → atoi s ≡ pos n
unfolding atoi digits_value is_digit unsigned_value clamp_pos clamp_neg
atoi-digits n [] fits h e = absurd h
atoi-digits n (c ∷ s) fits h e = ground (arith, fits, h, e)

pub atoi-format_nat : (n : ℕ) → n < 2 ^ 63 → atoi (format_nat n) ≡ pos n
atoi-format_nat n fits =
    atoi-digits n (format_nat n) fits (format_nat-StartsInDigit n)
      (value-format_nat digits_value reads_digit n)

bar_first :
    (d : String) → (cut_first b'|' ("|" <> d) ≡ some ("", d)) × (contains b'|' ("|" <> d) ≡ true)
unfolding cut_first contains
bar_first d = rw (cons-append _ "" d) (rw (nil-append d) (refl, refl))

bar_inside : (g d : String) → contains b'|' (g <> "|" <> d) ≡ true
unfolding contains
bar_inside g d = rw (contains-append b'|' g ("|" <> d)) (ground (arith, (bar_first d).1))

-- what `strings.SplitN` makes of a name, a bar and a text: these, or a second part with a bar
pub cut_first-bar :
    (g d : String)
    → (cut_first b'|' (g <> "|" <> d) ≡ some (g, d))
      ⊎ ((p : String × String) × (cut_first b'|' (g <> "|" <> d) ≡ some p)
          × (contains b'|' p.1 ≡ true))
unfolding cut_first
cut_first-bar [] d = rw (nil-append ("|" <> d)) (inl (bar_first d).0)
cut_first-bar (c ∷ g) d = rw (cons-append c g ("|" <> d)) (elim (Bool-cases (code c == b'|')) [
  | inl e ↦ rw e (inr (("", g <> "|" <> d), refl, bar_inside g d))
  | inr e ↦ rw e (elim (cut_first-bar g d) [
    | inl f ↦ rw f (inl refl)
    | inr (p, f, bar) ↦ rw f (inr ((c ∷ p.0, p.1), refl, bar))
  ])
])

pub cut_first-name :
    (g d : String) → contains b'|' g ≡ false → cut_first b'|' (g <> "|" <> d) ≡ some (g, d)
unfolding cut_first contains
cut_first-name [] d e = rw (nil-append ("|" <> d)) (bar_first d).0
cut_first-name (c ∷ g) d e = rw (cons-append c g ("|" <> d)) (ground (arith, e, cut_first-name g d))

clamp_pos-pos : (o : Option ℕ) → (i : ℕ) × (clamp_pos o ≡ pos i)
unfolding clamp_pos
clamp_pos-pos none = (0, refl)
clamp_pos-pos (some n) = elim (Bool-cases (leb n (2 ^ 63 - 1))) [
  | inl e ↦ (n, rw e refl)
  | inr e ↦ (2 ^ 63 - 1, rw e refl)
]

atoi-pos : (s : String) → StartsInDigit s → (i : ℕ) × (atoi s ≡ pos i)
unfolding atoi unsigned_value is_digit
atoi-pos [] h = absurd h
atoi-pos (c ∷ s) h =
    let (i, e) = clamp_pos-pos (digits_value 0 (c ∷ s)) in
    let minus : (code c == b'-') ≡ false = ground (arith, h) in
    let plus : (code c == b'+') ≡ false = ground (arith, h) in (i, rw (minus, plus) e)

-- the number that is read behind a name, a bar and a printed number is not below 0
pub atoi-cut_first-pos :
    (g : String) (n : ℕ) (p : String × String)
    → cut_first b'|' (g <> "|" <> format_nat n) ≡ some p
    → (i : ℕ) × (atoi p.1 ≡ pos i)
atoi-cut_first-pos g n p e = elim (cut_first-bar g (format_nat n)) [
  | inl f ↦
      let (i, read) = atoi-pos (format_nat n) (format_nat-StartsInDigit n) in
      (
        i,
        subst (λ (q : String × String). atoi q.1 ≡ pos i)
            (some-injective (g, format_nat n) p (sym f ∙ e)) read,
      )
  | inr (q, f, bar) ↦ (
    0,
    subst (λ (r : String × String). atoi r.1 ≡ pos 0) (some-injective q p (sym f ∙ e))
        (atoi-bar q.1 bar),
  )
]
