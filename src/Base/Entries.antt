-- ===== src/Base/Entries.antt =====
-- Predicates on the entries of a dictionary, and dictionaries with distinct keys.
use Prim.Native.String.{String}
use mathlib.Core.Path.{◌≡◌, refl, sym, ◌∙◌, subst, subst₂}
use mathlib.Core.Logic.{◌≢◌, inl, inr}
use mathlib.Core.List.{[], ◌∷◌}
use mathlib.Core.Option.{none, some, some-injective}
use native.Mathlib.Omega.{arith}
use text.Mathlib.TextEquality.{eq_iff}
use bypath.Base.Tests.{◌==◌, string_eq, Bool-cases}
use bypath.Base.Lists.{All}
use bypath.Base.Dicts.{Dict, lookup, insert, delete}

module _ {ℓ κ} {V : Type ℓ} (P : String × V → Type κ) where
  pub All-insert : (k : String) (v : V) (m : Dict V) → All P m → P (k, v) → All P (insert k v m)
  unfolding insert
  All-insert k v [] h p = (p, tt)
  All-insert k v ((j, w) ∷ m) (q, h) p = ground (arith, All-insert k v m h p)

  pub All-delete : (k : String) (m : Dict V) → All P m → All P (delete k m)
  unfolding delete
  All-delete k [] h = tt
  All-delete k ((j, w) ∷ m) (q, h) = ground (arith, All-delete k m h)

  pub lookup-All : (k : String) {v : V} (m : Dict V) → lookup k m ≡ some v → All P m → P (k, v)
  unfolding lookup
  lookup-All k [] e h = cc
  lookup-All k {v} ((j, w) ∷ m) e (q, h) = elim (Bool-cases (j == k)) [
    | inl same ↦
        subst₂ (λ a b. P (a, b)) ((eq_iff j k).0 same) (some-injective w v (rw (same, lookup) at e))
          q
    | inr other ↦ lookup-All k m (rw (other, lookup) at e) h
  ]

module _ {ℓ} {V : Type ℓ} where
  abbrev pub HasDistinctKeys : Dict V → Type 0
  HasDistinctKeys [] = Unit
  HasDistinctKeys ((k, v) ∷ m) = All (λ e. e.0 ≢ k) m × HasDistinctKeys m

  pub HasDistinctKeys-insert :
      (k : String) (v : V) (m : Dict V) → HasDistinctKeys m → HasDistinctKeys (insert k v m)
  unfolding insert
  HasDistinctKeys-insert k v [] h = (tt, tt)
  HasDistinctKeys-insert k v ((j, w) ∷ m) (new, h) = elim (Bool-cases (j == k)) [
    | inl same ↦ rw same (subst (λ i. All (λ e. e.0 ≢ i) m) ((eq_iff j k).0 same) new, h)
    | inr other ↦ rw other (
      All-insert (λ e. e.0 ≢ j) k v m new (λ same. cc (sym other ∙ (eq_iff j k).1 (sym same))),
      HasDistinctKeys-insert k v m h,
    )
  ]

  pub HasDistinctKeys-delete :
      (k : String) (m : Dict V) → HasDistinctKeys m → HasDistinctKeys (delete k m)
  unfolding delete
  HasDistinctKeys-delete k [] h = tt
  HasDistinctKeys-delete k ((j, w) ∷ m) (new, h) =
      ground (arith, HasDistinctKeys-delete k m h, All-delete (λ e. e.0 ≢ j) k m new)

  pub lookup_absent : (k : String) (m : Dict V) → All (λ e. e.0 ≢ k) m → lookup k m ≡ none
  unfolding lookup
  lookup_absent k [] h = refl
  lookup_absent k ((j, w) ∷ m) (new, h) = ground (arith, eq_iff j k, lookup_absent k m h)
