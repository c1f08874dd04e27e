-- ===== src/Base/Dicts.antt =====
-- A Go map as an association list: at most one entry of a key, in the order of insertion.
use mathlib.Core.Path.{◌≡◌, refl}
use mathlib.Core.List.{List, [], ◌∷◌}
use mathlib.Core.Option.{Option, none, some}
use native.Mathlib.Omega.{arith}
use Prim.Native.String.{String}
use text.Mathlib.TextEquality.{eq_iff}
use bypath.Base.Tests.{◌==◌, string_eq, if◌then◌else◌}

abbrev pub Dict {ℓ} : Type ℓ → Type ℓ
Dict V = List (String × V)

module _ {ℓ} {V : Type ℓ} where
  -- `m[key]`
  unfoldable pub lookup : String → Dict V → Option V
  lookup key [] = none
  lookup key ((name, val) ∷ rest) = if name == key then some val else lookup key rest

  -- `m[key] = new`
  unfoldable pub insert : String → V → Dict V → Dict V
  insert key new [] = (key, new) ∷ []
  insert key new ((name, val) ∷ rest) =
      let kept = insert key new rest in
      if name == key then (key, new) ∷ rest else (name, val) ∷ kept

  -- `delete(m, key)`
  unfoldable pub delete : String → Dict V → Dict V
  delete key [] = []
  delete key ((name, val) ∷ rest) =
      let kept = delete key rest in if name == key then kept else (name, val) ∷ kept

  pub lookup-insert :
      (at key : String) (new : V) (m : Dict V)
      → lookup key (insert at new m) ≡ (if at == key then some new else lookup key m)
  unfolding lookup insert
  lookup-insert at key new [] = refl
  lookup-insert at key new ((name, val) ∷ rest) =
      ground (arith, lookup-insert at key new rest, eq_iff name at, eq_iff name key, eq_iff at key)

  pub lookup-delete :
      (at key : String) (m : Dict V)
      → lookup key (delete at m) ≡ (if at == key then none else lookup key m)
  unfolding lookup delete
  lookup-delete at key [] = ground arith
  lookup-delete at key ((name, val) ∷ rest) =
      ground (arith, lookup-delete at key rest, eq_iff name at, eq_iff name key, eq_iff at key)
