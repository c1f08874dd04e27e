-- ===== src/Base/Decimal.antt =====
-- Printed natural numbers: their digits, and what a reader of digits makes of them.
use Prim.Native.Nat.{ℕ, zero, suc, ◌+◌, ◌*◌, ◌-◌, ◌/◌, ◌%◌, ◌<◌, ◌≤◌}
use Prim.Native.Char.{code}
use Prim.Native.String.{String, [], ◌∷◌}
use mathlib.Core.Path.{◌≡◌, refl, ap, sym, ◌∙◌}
use mathlib.Core.Logic.{inl, inr}
use mathlib.Core.Bool.{true, false}
use native.Mathlib.Omega.{arith}
use bypath.Base.Tests.{ltb, Bool-cases}
use bypath.Base.Text.{digit, digits, format_nat, is_digit}

pub digit-code : (d : ℕ) → d < 10 → code (digit d) ≡ 48 + d
unfolding digit
digit-code zero h = refl
digit-code (suc zero) h = refl
digit-code (suc (suc zero)) h = refl
digit-code (suc (suc (suc zero))) h = refl
digit-code (suc (suc (suc (suc zero)))) h = refl
digit-code (suc (suc (suc (suc (suc zero))))) h = refl
digit-code (suc (suc (suc (suc (suc (suc zero)))))) h = refl
digit-code (suc (suc (suc (suc (suc (suc (suc zero))))))) h = refl
digit-code (suc (suc (suc (suc (suc (suc (suc (suc zero)))))))) h = refl
digit-code (suc (suc (suc (suc (suc (suc (suc (suc (suc zero))))))))) h = refl
digit-code (suc (suc (suc (suc (suc (suc (suc (suc (suc (suc d)))))))))) h = omega (arith, h)

pub cancel_zero : (d : ℕ) → 48 + d - 48 ≡ d
cancel_zero d = omega arith

pub last_digit-lt : (n : ℕ) → n % 10 < 10
last_digit-lt n = omega arith

digits-join : (n : ℕ) → n / 10 * 10 + n % 10 ≡ n
digits-join n = omega arith

short : (n : ℕ) → ltb n 10 ≡ true → 0 * 10 + n % 10 ≡ n
short n e = omega (arith, less)
  where
    less : n < 10
    less = ground (arith, e)

long : (n f : ℕ) → n < suc f → ltb n 10 ≡ false → n / 10 < f
long n f h e = omega (arith, h, more)
  where
    more : 10 ≤ n
    more = ground (arith, e)

-- A reader that takes a digit into its value reads a printed number.
module _ {ℓ} {A : Type ℓ} (value : ℕ → String → A)
    (reads : (n d : ℕ) (s : String) → d < 10 → value n (digit d ∷ s) ≡ value (n * 10 + d) s) where
  value-digits : (f n : ℕ) (out : String) → n < f → value 0 (digits f n out) ≡ value n out
  unfolding digits
  value-digits zero n out h = absurd (omega (arith, h))
  value-digits (suc f) n out h = elim (Bool-cases (ltb n 10)) [
    | inl e ↦ rw e (reads 0 (n % 10) out (last_digit-lt n) ∙ ap (λ k. value k out) (short n e))
    | inr e ↦ rw e (
        value-digits f (n / 10) (digit (n % 10) ∷ out) (long n f h e)
        ∙ reads (n / 10) (n % 10) out (last_digit-lt n)
        ∙ ap (λ k. value k out) (digits-join n))
  ]

  pub value-format_nat : (n : ℕ) → value 0 (format_nat n) ≡ value n ""
  unfolding format_nat
  value-format_nat n = value-digits (suc n) n "" (omega arith)

-- A property of texts that a digit in front keeps.
module _ {ℓ} (P : String → Type ℓ)
    (keeps : (d : ℕ) (s : String) → d < 10 → P s → P (digit d ∷ s)) where
  digits-keep : (f n : ℕ) (out : String) → P out → P (digits f n out)
  unfolding digits
  digits-keep zero n out h = h
  digits-keep (suc f) n out h = elim (Bool-cases (ltb n 10)) [
    | inl e ↦ rw e (keeps (n % 10) out (last_digit-lt n) h)
    | inr e ↦
        rw e
          (digits-keep f (n / 10) (digit (n % 10) ∷ out) (keeps (n % 10) out (last_digit-lt n) h))
  ]

  pub format_nat-keep : P "" → (n : ℕ) → P (format_nat n)
  unfolding format_nat
  format_nat-keep h n = digits-keep (suc n) n "" h

  pub format_nat-keep_step : ((d : ℕ) → d < 10 → P (digit d ∷ "")) → (n : ℕ) → P (format_nat n)
  unfolding format_nat digits
  format_nat-keep_step one n = elim (Bool-cases (ltb n 10)) [
    | inl e ↦ rw e (one (n % 10) (last_digit-lt n))
    | inr e ↦ rw e (digits-keep n (n / 10) (digit (n % 10) ∷ "") (one (n % 10) (last_digit-lt n)))
  ]

-- A text of digits alone.
abbrev pub IsDigits : String → Type 0
IsDigits [] = Unit
IsDigits (c ∷ s) = (is_digit (code c) ≡ true) × IsDigits s

-- A text that is not empty and has a digit in front.
abbrev pub StartsInDigit : String → Type 0
StartsInDigit [] = ⊥
StartsInDigit (c ∷ s) = is_digit (code c) ≡ true

pub digit-is_digit : (d : ℕ) → d < 10 → is_digit (code (digit d)) ≡ true
unfolding is_digit
digit-is_digit d h = rw (digit-code d h) (ground (arith, h))

pub format_nat-IsDigits : (n : ℕ) → IsDigits (format_nat n)
format_nat-IsDigits n = format_nat-keep IsDigits (λ d s h rest. (digit-is_digit d h, rest)) tt n

pub format_nat-StartsInDigit : (n : ℕ) → StartsInDigit (format_nat n)
format_nat-StartsInDigit n =
    format_nat-keep_step StartsInDigit (λ d s h _. digit-is_digit d h) (λ d h. digit-is_digit d h) n

-- the number that a text of digits stands for
abbrev digits_value : ℕ → String → ℕ
digits_value n [] = n
digits_value n (c ∷ s) = digits_value (n * 10 + (code c - 48)) s

pub format_nat-injective : (a b : ℕ) → format_nat a ≡ format_nat b → a ≡ b
format_nat-injective a b same = sym (back a) ∙ ap (digits_value 0) same ∙ back b
  where
    reads :
        (n d : ℕ) (s : String) → d < 10 → digits_value n (digit d ∷ s) ≡ digits_value (n * 10 + d) s
    reads n d s h =
        ap (λ k. digits_value (n * 10 + k) s) (ap (λ k. k - 48) (digit-code d h) ∙ cancel_zero d)

    back : (n : ℕ) → digits_value 0 (format_nat n) ≡ n
    back n = value-format_nat digits_value reads n
