-- ===== src/Tui/Update/Prefixes.antt =====
-- `strings.TrimPrefix` of a text that begins with the prefix, and of one that begins with another.
use Prim.Native.Char.{code}
use Prim.Native.String.{[], ◌∷◌}
use bypath.Base.{
  arith, String, nat_eq, Bool, true, false, ◌==◌, if◌then◌else◌, none, some, ◌≡◌, refl, ◌<>◌,
  cut_prefix,
}
use text.Mathlib.TextLemmas.{cons-append, nil-append}

pub cut_prefix-append : (p s : String) → cut_prefix p (p <> s) ≡ some s
unfolding cut_prefix
cut_prefix-append [] s = rw (nil-append s) refl
cut_prefix-append (c ∷ p) s = rw (cons-append c p s) (ground (arith, cut_prefix-append p s))

-- whether two texts differ before one of them ends
unfoldable pub differ : String → String → Bool
differ [] q = false
differ (c ∷ p) [] = false
differ (c ∷ p) (d ∷ q) = if code c == code d then differ p q else true

pub cut_prefix-differ : (p q s : String) → differ p q ≡ true → cut_prefix p (q <> s) ≡ none
unfolding cut_prefix differ
cut_prefix-differ [] q s e = cc
cut_prefix-differ (c ∷ p) [] s e = cc
cut_prefix-differ (c ∷ p) (d ∷ q) s e =
    rw (cons-append d q s) (ground (arith, e, cut_prefix-differ p q s))
