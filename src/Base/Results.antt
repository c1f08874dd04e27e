-- ===== src/Base/Results.antt =====
-- A value and an error as Go returns them: one of the two.
use mathlib.Core.Path.{◌≡◌, subst}
use mathlib.Core.Bool.{Bool, true, false}
use mathlib.Core.Path.{refl}
use mathlib.Core.Logic.{◌⊎◌, inl, inr}
use bypath.Base.Tests.{if◌then◌else◌}

pub data Result {ℓ κ} (E : Type ℓ) (A : Type κ) : Type (ℓ ⊔ κ) where
  ok : A → Result E A
  err : E → Result E A

infixl 5 ◌>>=◌
abbrev pub ◌>>=◌ {ℓ κ μ} :
    {E : Type ℓ} {A : Type κ} {B : Type μ} → Result E A → (A → Result E B) → Result E B
ok a >>= f = f a
err e >>= f = err e

pub Result-cases {ℓ κ} :
    {E : Type ℓ} {A : Type κ} (r : Result E A) → ((a : A) × (r ≡ ok a)) ⊎ ((e : E) × (r ≡ err e))
Result-cases (ok a) = inl (a, refl)
Result-cases (err e) = inr (e, refl)

-- A property of the value, if there is one.
module _ {ℓ κ μ} {E : Type ℓ} {A : Type κ} (P : A → Type μ) where
  abbrev pub Post : Result E A → Type μ
  Post (ok a) = P a
  Post (err e) = Unit

  pub Post-bind {ν} :
      {B : Type ν} (m : Result E B) (f : B → Result E A) → ((b : B) → Post (f b)) → Post (m >>= f)
  Post-bind (ok b) f h = h b
  Post-bind (err e) f h = tt

  pub Post-if : (b : Bool) (r s : Result E A) → Post r → Post s → Post (if b then r else s)
  Post-if true r s h k = h
  Post-if false r s h k = k

  pub of_Post : (r : Result E A) {a : A} → Post r → r ≡ ok a → P a
  of_Post r h e = subst Post e h
