-- ===== src/Tunnel/Names/Plain.antt =====
-- What `sanitizeName` leaves of a name.
use Prim.Native.Char.{code}
use Prim.Native.String.{[], ◌∷◌}
use bypath.Base.{
  ap, String, string_eq, nat_eq, Bool, true, ◌&&◌, ◌≡◌, ◌≢◌, refl, ◌==◌, Bool-cases, inl, inr,
  arith, eq_iff,
}
use bypath.Tunnel.Names.{is_plain, keep_plain, sanitize_name}

-- A name of letters, digits, dashes and underscores.
unfoldable all_plain : String → Bool
all_plain [] = true
all_plain (c ∷ s) = is_plain (code c) && all_plain s

keep_plain-plain : (s : String) → all_plain (keep_plain s) ≡ true
unfolding all_plain keep_plain
keep_plain-plain [] = refl
keep_plain-plain (c ∷ s) = elim (Bool-cases (is_plain (code c))) [
  | inl e ↦ rw e (rw e (keep_plain-plain s))
  | inr e ↦ rw e (keep_plain-plain s)
]

keep_plain-same : (s : String) → all_plain s ≡ true → keep_plain s ≡ s
unfolding all_plain keep_plain
keep_plain-same [] h = refl
keep_plain-same (c ∷ s) h = elim (Bool-cases (is_plain (code c))) [
  | inl e ↦ rw e (ap (λ r. c ∷ r) (keep_plain-same s (rw e at h)))
  | inr e ↦ ground (arith, rw e at h)
]

-- `sanitizeName` gives a name of letters, digits, dashes and underscores that is not empty, so the
-- name of a file that stays in its folder; and it leaves such a name as it is.
sanitize_name-plain :
    (name : String)
    → (all_plain (sanitize_name name) ≡ true)
      × (sanitize_name name ≢ "")
      × (name ≢ "" → all_plain name ≡ true → sanitize_name name ≡ name)
unfolding sanitize_name all_plain
sanitize_name-plain name = elim (Bool-cases (keep_plain name == "")) [
  | inl e ↦ rw e (
    refl,
    λ h. ground (arith, (eq_iff "unnamed" "").1 h),
    λ set plain. ground (arith, keep_plain-same name plain, set, e, eq_iff (keep_plain name) ""),
  )
  | inr e ↦ rw e (
    keep_plain-plain name,
    λ h. ground (arith, e, h, eq_iff (keep_plain name) ""),
    λ set plain. keep_plain-same name plain,
  )
]
