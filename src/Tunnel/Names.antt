-- ===== src/Tunnel/Names.antt =====
-- The helpers of internal/tunnel/configgen.go: `proxyDNSServer`, `sanitizeName`, `extractPort`.
mod Plain
pub mod Port
use Prim.Native.Char.{code}
use Prim.Native.String.{[], ◌∷◌}
use mathlib.Core.List.{List, [], ◌∷◌}
use bypath.Base.{
  ℕ, ◌+◌, ◌*◌, ◌-◌, ℤ, pos, String, string_eq, nat_eq, Bool, ◌&&◌, ◌||◌, none, some, if◌then◌else◌,
  ◌==◌, leb, cut_last,
}
use bypath.Tunnel.{ConfigGenerator}

abbrev is_cloudflare : String → Bool
is_cloudflare u = u == "1.1.1.1" || u == "1.0.0.1"

-- the first server that is not Cloudflare's, else the last one, else `fallback`
unfoldable pub choose_server : String → List String → String
choose_server fallback [] = fallback
choose_server fallback (u ∷ us) =
    let later = choose_server u us in if is_cloudflare u then later else u

-- `proxyDNSServer`
unfoldable pub proxy_dns_server : ConfigGenerator → String
unfolding choose_server
proxy_dns_server cg = choose_server "8.8.8.8" cg.dns_upstream

-- a character that `sanitizeName` keeps
abbrev pub is_plain : ℕ → Bool
is_plain c =
    leb b'a' c && leb c b'z'
    || leb b'A' c && leb c b'Z'
    || leb b'0' c && leb c b'9'
    || c == b'-'
    || c == b'_'

unfoldable pub keep_plain : String → String
keep_plain [] = []
keep_plain (c ∷ s) = let rest = keep_plain s in if is_plain (code c) then c ∷ rest else rest

-- `sanitizeName`
unfoldable pub sanitize_name : String → String
unfolding keep_plain
sanitize_name name = let result = keep_plain name in if result == "" then "unnamed" else result

-- the number that the digits of a text form, behind `port`; other characters are passed over
unfoldable pub port_value : ℕ → String → ℕ
port_value port [] = port
port_value port (c ∷ s) =
    let c_is_digit = leb b'0' (code c) && leb (code c) b'9' in
    let more = port_value (port * 10 + (code c - b'0')) s in
    let same = port_value port s in if c_is_digit then more else same

-- `extractPort`
unfoldable pub extract_port : String → ℤ
unfolding port_value cut_last
extract_port addr = elim (cut_last b':' addr) [
  | none ↦ pos 0
  | some (host, digits) ↦ pos (port_value 0 digits)
]
