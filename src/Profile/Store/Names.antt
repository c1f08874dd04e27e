-- ===== src/Profile/Store/Names.antt =====
-- The names of the files of the profiles directory.

use Prim.Native.String.{[], ◌∷◌}
use text.Mathlib.TextLemmas.{append_cancel_right, nil-append, cons-append}
use bypath.Base.{
  ℕ, String, string_eq, true, false, some, ◌≡◌, refl, sym, ap, arith, eq_iff, ◌==◌, ◌<>◌, cut_last,
  ◌≢◌,
}
use bypath.Profile.Store.Dir.{file_name, is_json_name}

pub file_name_injective : (a b : String) → file_name a ≡ file_name b → a ≡ b
file_name_injective a b e = append_cancel_right a b ".json" e

pub file_name-eq : (a b : String) → (file_name a == file_name b) ≡ (a == b)
file_name-eq a b =
    ground (arith, eq_iff a b, eq_iff (file_name a) (file_name b), file_name_injective a b)

cut_last-append :
    (sep : ℕ) (s t a b : String)
    → cut_last sep t ≡ some (a, b)
    → cut_last sep (s <> t) ≡ some (s <> a, b)
unfolding cut_last
cut_last-append sep [] t a b e = rw (nil-append, nil-append) e
cut_last-append sep (c ∷ s) t a b e =
    rw cons-append (
      rw (cut_last-append sep s t a b e, cut_last)
        (ap (λ x. some (x, b)) (sym (cons-append c s a))))

pub is_json_name-file_name : (name : String) → is_json_name (file_name name) ≡ true
unfolding is_json_name cut_last
is_json_name-file_name name = rw (cut_last-append b'.' name ".json" "" "json" refl, is_json_name)

pub file_name-ne-active : (name : String) → file_name name ≢ ".active"
unfolding is_json_name cut_last
file_name-ne-active name e = cc (sym (is_json_name-file_name name), ap is_json_name e)

pub active_not_json : is_json_name ".active" ≡ false
unfolding is_json_name cut_last
active_not_json = refl
