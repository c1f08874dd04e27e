-- ===== src/Tui/Update/Branches.antt =====
-- Properties of a step by the branches of the code.
use mathlib.Core.Option.{some-injective}
use bypath.Base.{
  Bool, true, false, if◌then◌else◌, String, List, [], ◌∷◌, Option, none, some, ◌≡◌, refl, subst,
  inl, inr, Bool-cases,
}
use bypath.Tui.{Stepped, is_any_of, case_of}

module _ {κ} (Q : Option Stepped → Type κ) where
  pub case_of-branch :
      (text : String) (ts : List String) (step default : Option Stepped)
      (cases : List (List String × Option Stepped))
      → Q step
      → Q (case_of text cases default)
      → Q (case_of text ((ts, step) ∷ cases) default)
  unfolding case_of
  case_of-branch text ts step default cases h k = elim (Bool-cases (is_any_of text ts)) [
    | inl e ↦ rw e h
    | inr e ↦ rw e k
  ]

  pub case_of-default :
      (text : String) (default : Option Stepped) → Q default → Q (case_of text [] default)
  unfolding case_of
  case_of-default text default h = h

  pub if-branch : (b : Bool) (x y : Option Stepped) → Q x → Q y → Q (if b then x else y)
  if-branch true x y h k = h
  if-branch false x y h k = k

  -- of a step that needs an element
  pub Option-branch {ℓ} :
      {A : Type ℓ} (o : Option A) (none_step : Option Stepped) (f : A → Option Stepped)
      → Q none_step
      → ((a : A) → Q (f a))
      → Q (elim o [ none ↦ none_step | some a ↦ f a ])
  Option-branch none d f h k = h
  Option-branch (some a) d f h k = k a

-- The same where a branch may use why it is taken.
module _ {κ} (Q : Option Stepped → Type κ) where
  pub case_of-case :
      (text : String) (ts : List String) (step default : Option Stepped)
      (cases : List (List String × Option Stepped))
      → (is_any_of text ts ≡ true → Q step)
      → Q (case_of text cases default)
      → Q (case_of text ((ts, step) ∷ cases) default)
  unfolding case_of
  case_of-case text ts step default cases h k = elim (Bool-cases (is_any_of text ts)) [
    | inl e ↦ rw e (h e)
    | inr e ↦ rw e k
  ]

  pub if-case :
      (b : Bool) (x y : Option Stepped)
      → (b ≡ true → Q x)
      → (b ≡ false → Q y)
      → Q (if b then x else y)
  if-case true x y h k = h refl
  if-case false x y h k = k refl

  pub Option-case {ℓ} :
      {A : Type ℓ} (o : Option A) (none_step : Option Stepped) (f : A → Option Stepped)
      → (o ≡ none → Q none_step)
      → ((a : A) → o ≡ some a → Q (f a))
      → Q (elim o [ none ↦ none_step | some a ↦ f a ])
  Option-case none d f h k = h refl
  Option-case (some a) d f h k = k a refl

-- What holds of a step: one thing where it panics, another where it does not.
pub data Fine {κ} (C : Type κ) (P : Stepped → Type κ) : Option Stepped → Type κ where
  fails : C → Fine C P none
  steps : {s : Stepped} → P s → Fine C P (some s)

pub Fine-none {κ} :
    (C : Type κ) (P : Stepped → Type κ) {o : Option Stepped} → Fine C P o → o ≡ none → C
Fine-none C P (fails c) e = c
Fine-none C P (steps p) e = cc

pub Fine-some {κ} :
    (C : Type κ) (P : Stepped → Type κ) {o : Option Stepped} {s : Stepped}
    → Fine C P o
    → o ≡ some s
    → P s
Fine-some C P (fails c) e = cc
Fine-some C P (steps {s} p) e = subst P (some-injective s _ e) p

pub Fine-map {κ} :
    (C : Type κ) (P R : Stepped → Type κ)
    → ((s : Stepped) → P s → R s)
    → {o : Option Stepped} → Fine C P o
    → Fine C R o
Fine-map C P R f (fails c) = fails c
Fine-map C P R f (steps {s} p) = steps (f s p)
