-- ===== src/Tunnel/Names/Port.antt =====
-- The port that `extractPort` reads from an address of a host and a port.
use Prim.Native.Char.{Char, code}
use Prim.Native.String.{[], ◌∷◌, ◌++◌, char_at}
use text.Mathlib.TextLemmas.{cons-append, nil-append}
use bypath.Base.{
  ℕ, ◌+◌, ◌*◌, ◌<◌, pos, String, string_eq, nat_eq, ◌≡◌, refl, ap, ◌∙◌, none, some, ◌<>◌, arith,
  cut_last, digit, format_nat, digit-code, cancel_zero, value-format_nat, format_nat-keep,
}
use bypath.Tunnel.Names.{port_value, extract_port}

port-digit :
    (port d : ℕ) (s : String)
    → d < 10
    → port_value port (digit d ∷ s) ≡ port_value (port * 10 + d) s
unfolding port_value
port-digit port d s h =
    rw (digit-code d h) (ground (arith, h, ap (λ k. port_value (port * 10 + k) s) (cancel_zero d)))

cut-digit :
    (d : ℕ) (s : String) → d < 10 → cut_last b':' s ≡ none → cut_last b':' (digit d ∷ s) ≡ none
unfolding cut_last
cut-digit d s h rest = rw rest (rw (digit-code d h) (ground (arith, h)))

-- The last separator of a text that ends in one and a part without it.
cut-append :
    (sep : ℕ) (host : String) (c : Char) (rest : String)
    → code c ≡ sep
    → cut_last sep rest ≡ none
    → cut_last sep (host ++ (c ∷ rest)) ≡ some (host, rest)
unfolding cut_last
cut-append sep [] c rest is_sep none_left =
    rw (nil-append (c ∷ rest)) (rw none_left (ground (arith, is_sep)))
cut-append sep (d ∷ host) c rest is_sep none_left =
    rw (cons-append d host (c ∷ rest))
      (rw (cut-append sep host c rest is_sep none_left, cut_last) refl)

-- `extractPort` reads the port of an address that is printed as `%s:%d`, for any host and any port.
pub extract_port-address :
    (host : String) (port : ℕ) → extract_port (host <> ":" <> format_nat port) ≡ pos port
unfolding extract_port cut_last port_value
extract_port-address host port =
    let printed = format_nat port in
    let cut : cut_last b':' (host ++ (":" ++ printed)) ≡ some (host, printed) =
      ap (λ s. cut_last b':' (host ++ s))
        (cons-append (char_at ":" 0) "" printed ∙ ap (λ t. char_at ":" 0 ∷ t) (nil-append printed))
      ∙ cut-append b':' host (char_at ":" 0) printed refl
          (format_nat-keep (λ s. cut_last b':' s ≡ none) cut-digit refl port) in
    rw (cut, extract_port) (ap (λ n. pos n) (value-format_nat port_value port-digit port))
