-- ===== src/Base/Text.antt =====
-- The part of Go's packages `strings` and `strconv` that the program uses, on the code points of a
-- text. A separator is one ASCII character, so a cut by code points is the cut by bytes.
use Prim.Native.Nat.{ℕ, zero, suc, ◌+◌, ◌-◌, ◌*◌, ◌/◌, ◌%◌, ◌^◌}
use Prim.Native.Char.{Char, code}
use Prim.Native.String
use Prim.Native.String.{String, [], ◌∷◌, char_at}
use mathlib.Core.Path.{◌≡◌, refl}
use mathlib.Core.Bool.{Bool, true, false, ◌&&◌, ◌||◌}
use mathlib.Core.List.{List, [], ◌∷◌}
use mathlib.Core.Option.{Option, none, some}
use bypath.Base.Tests.{ltb, leb, ◌==◌, nat_eq, string_eq, if◌then◌else◌}
use bypath.Base.Int.{ℤ, pos, negsuc}

infixr 66 ◌<>◌
-- text concatenation
abbrev pub ◌<>◌ : String → String → String
s <> t = String.◌++◌ s t

-- `unicode.IsSpace`
unfoldable pub is_space : ℕ → Bool
is_space c =
    leb 9 c && leb c 13
    || c == 32
    || c == 0x85
    || c == 0xa0
    || c == 0x1680
    || leb 0x2000 c && leb c 0x200a
    || c == 0x2028
    || c == 0x2029
    || c == 0x202f
    || c == 0x205f
    || c == 0x3000

unfoldable pub trim_left : String → String
trim_left [] = []
trim_left (c ∷ s) = let rest = trim_left s in if is_space (code c) then rest else c ∷ s

unfoldable pub trim_right : String → String
trim_right [] = []
trim_right (c ∷ s) =
    let rest = trim_right s in if is_space (code c) && rest == "" then "" else c ∷ rest

-- `strings.TrimSpace`
unfoldable pub trim_space : String → String
unfolding trim_left trim_right is_space
trim_space s = trim_right (trim_left s)

-- what follows a prefix, if the text begins with it
unfoldable pub cut_prefix : String → String → Option String
cut_prefix [] s = some s
cut_prefix (c ∷ p) [] = none
cut_prefix (c ∷ p) (d ∷ s) = if code c == code d then cut_prefix p s else none

-- `strings.HasPrefix(s, p)`
unfoldable pub has_prefix : String → String → Bool
unfolding cut_prefix
has_prefix s p = elim (cut_prefix p s) [ none ↦ false | some _ ↦ true ]

-- `strings.TrimPrefix(s, p)`
unfoldable pub trim_prefix : String → String → String
unfolding cut_prefix
trim_prefix s p = elim (cut_prefix p s) [ none ↦ s | some rest ↦ rest ]

-- the text before and behind the first separator: `strings.SplitN(s, sep, 2)` of two parts
unfoldable pub cut_first : ℕ → String → Option (String × String)
cut_first sep [] = none
cut_first sep (c ∷ s) =
    let rest = cut_first sep s in
    if code c == sep
    then some ("", s)
    else elim rest [ none ↦ none | some (before, behind) ↦ some (c ∷ before, behind) ]

-- the text before and behind the last separator: `strings.LastIndex` and the two slices
unfoldable pub cut_last : ℕ → String → Option (String × String)
cut_last sep [] = none
cut_last sep (c ∷ s) = elim (cut_last sep s) [
  | none ↦ if code c == sep then some ("", s) else none
  | some (before, behind) ↦ some (c ∷ before, behind)
]

-- `strings.Contains(s, sep)`
unfoldable pub contains : ℕ → String → Bool
contains sep [] = false
contains sep (c ∷ s) = code c == sep || contains sep s

abbrev snoc : String → Char → String
snoc s c = s <> (c ∷ [])

unfoldable pub split_from : ℕ → String → String → List String
split_from sep cur [] = cur ∷ []
split_from sep cur (c ∷ s) =
    let closed : List String = cur ∷ split_from sep "" s in
    let longer = split_from sep (snoc cur c) s in if code c == sep then closed else longer

-- `strings.Split(s, sep)`: one part at least
unfoldable pub split : ℕ → String → List String
unfolding split_from
split sep s = split_from sep "" s

-- the decimal digit of a number below ten
unfoldable pub digit : ℕ → Char
digit d = char_at "0123456789" d

-- the digits of `n` before `out`; the fuel is larger than `n`
unfoldable pub digits : ℕ → ℕ → String → String
digits zero n out = out
digits (suc f) n out =
    let longer = digits f (n / 10) (digit (n % 10) ∷ out) in
    if ltb n 10 then digit (n % 10) ∷ out else longer

-- `%d` of a natural number
unfoldable pub format_nat : ℕ → String
unfolding digits digit
format_nat n = digits (suc n) n ""

-- `%d`
unfoldable pub format_int : ℤ → String
unfolding format_nat
format_int (pos n) = format_nat n
format_int (negsuc n) = "-" <> format_nat (suc n)

unfoldable pub is_digit : ℕ → Bool
is_digit c = leb b'0' c && leb c b'9'

-- digits only, behind the value `n` of those before; none for any other character
unfoldable pub digits_value : ℕ → String → Option ℕ
digits_value n [] = some n
digits_value n (c ∷ s) =
    let more = digits_value (n * 10 + (code c - b'0')) s in if is_digit (code c) then more else none

abbrev max_int : ℕ
max_int = 2 ^ 63 - 1

-- the value that `strconv.Atoi` returns beside an error: 0 for a bad text, the nearest `int` for
-- one out of range
unfoldable pub clamp_pos : Option ℕ → ℤ
clamp_pos none = pos 0
clamp_pos (some n) = if leb n max_int then pos n else pos max_int

unfoldable pub clamp_neg : Option ℕ → ℤ
clamp_neg none = pos 0
clamp_neg (some zero) = pos 0
clamp_neg (some (suc n)) = if leb n max_int then negsuc n else negsuc max_int

unfoldable pub unsigned_value : String → Option ℕ
unsigned_value [] = none
unsigned_value (c ∷ s) = digits_value 0 (c ∷ s)

-- `n, _ := strconv.Atoi(s)`
unfoldable pub atoi : String → ℤ
unfolding digits_value is_digit clamp_pos clamp_neg unsigned_value
atoi [] = pos 0
atoi (c ∷ s) =
    if code c == b'-'
    then clamp_neg (unsigned_value s)
    else if code c == b'+'
    then clamp_pos (unsigned_value s)
    else clamp_pos (unsigned_value (c ∷ s))

text_tests :
    (trim_space " \t a b \n" ≡ "a b")
    × (trim_prefix "vmess://x" "vmess://" ≡ "x")
    × (cut_first b':' "geoip:ir:x" ≡ some ("geoip", "ir:x"))
    × (cut_last b'#' "a#b#c" ≡ some ("a#b", "c"))
    × (split b',' "a,,b" ≡ "a" ∷ "" ∷ "b" ∷ [])
    × (format_int (pos 10805) ≡ "10805")
    × (format_int (negsuc 41) ≡ "-42")
    × (atoi "-42" ≡ negsuc 41)
    × (atoi "99999999999999999999" ≡ pos max_int)
    × (atoi "8x" ≡ pos 0)
unfolding trim_space trim_prefix cut_first cut_last split format_int atoi
text_tests = (refl, refl, refl, refl, refl, refl, refl, refl, refl, refl)
