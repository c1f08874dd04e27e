-- ===== src/Dns/Socks.antt =====
-- internal/dns/socksproxy.go: the bytes of one query, over SOCKS5 and DNS over TCP. A byte is a
-- number below 256.
pub mod Exchange
use Prim.Native.Char.{code}
use Prim.Native.String.{[], ◌∷◌}
use mathlib.Core.List.{[], ◌∷◌}
use bypath.Base.{
  ℕ, zero, suc, ◌+◌, ◌-◌, ◌*◌, ◌/◌, ◌%◌, ◌<◌, ◌≤◌, String, nat_eq, Bool, true, false, not, ◌&&◌,
  ◌||◌, Option, none, some, List, ◌++◌, length, length-append, if◌then◌else◌, ◌==◌, leb, ltb, ◌≡◌,
  refl, sym, ap, ◌∙◌, Result, ok, err, ◌>>=◌, arith, Bool-cases, inl, inr,
}

abbrev pub Bytes : Type 0
Bytes = List ℕ

-- the host of the upstream server, as `net.ParseIP` reads it: four bytes, sixteen, or a name
pub data Host : Type 0 where
  ip4 : ℕ → ℕ → ℕ → ℕ → Host
  ip6 : Bytes → Host
  domain : Bytes → Host

-- the value of the digits of a text, behind `port`
unfoldable pub digits_port : ℕ → String → ℕ
digits_port port [] = port
digits_port port (c ∷ s) =
    let more = digits_port (port * 10 + (code c - b'0')) s in
    let same = digits_port port s in if leb b'0' (code c) && leb (code c) b'9' then more else same

-- `parseHostPort`; `split` is `net.SplitHostPort`
unfoldable pub parse_host_port : (String → Option (String × String)) → String → String × ℕ
parse_host_port split addr = elim (split addr) [
  | none ↦ (addr, 53)
  | some (host, port) ↦ (host, digits_port 0 port)
]

-- `byte(n >> 8), byte(n & 0xff)`
abbrev pub two_bytes : ℕ → Bytes
two_bytes n = n / 256 % 256 ∷ n % 256 ∷ []

-- the address of a request: its type and its bytes
unfoldable pub address_bytes : Host → Bytes
address_bytes (ip4 a b c d) = 0x01 ∷ a ∷ b ∷ c ∷ d ∷ []
address_bytes (ip6 bs) = 0x04 ∷ bs
address_bytes (domain bs) = 0x03 ∷ length bs % 256 ∷ bs

-- the request to connect
unfoldable pub connect_request : Host → ℕ → Bytes
connect_request host port = (0x05 ∷ 0x01 ∷ 0x00 ∷ address_bytes host) ++ two_bytes port

-- the query behind its length
unfoldable pub dns_request : Bytes → Bytes
dns_request query = two_bytes (length query) ++ query

-- `io.ReadFull`: the first bytes of what the proxy sends, and the rest
unfoldable pub read_full : ℕ → Bytes → Option (Bytes × Bytes)
read_full zero bs = some ([], bs)
read_full (suc n) [] = none
read_full (suc n) (b ∷ bs) = elim (read_full n bs) [
  | none ↦ none
  | some (taken, rest) ↦ some (b ∷ taken, rest)
]

pub data ProxyError : Type 0 where
  handshake_read handshake_failed connect_read connect_failed length_read too_large response_read :
      ProxyError

abbrev pub reading : ProxyError → Option (Bytes × Bytes) → Result ProxyError (Bytes × Bytes)
reading e none = err e
reading e (some r) = ok r

abbrev is_accepted : Bytes → Bool
is_accepted (version ∷ method ∷ _) = version == 0x05 && method == 0x00
is_accepted _ = false

abbrev is_connected : Bytes → Bool
is_connected (version ∷ status ∷ _) = status == 0x00
is_connected _ = false

-- `int(b[0])<<8 | int(b[1])`
abbrev pub length_of : Bytes → ℕ
length_of (high ∷ low ∷ _) = high * 256 + low
length_of _ = 0

abbrev checked : ProxyError → Bool → Bytes → Result ProxyError Bytes
checked e passed bs = if passed then ok bs else err e

-- `forwardViaSocks` on what the proxy sends: the response
unfoldable pub forward_via_socks : Bytes → Result ProxyError Bytes
forward_via_socks stream = do
  (resp, after_handshake) ← reading handshake_read (read_full 2 stream)
  accepted ← checked handshake_failed (is_accepted resp) resp
  (reply, after_connect) ← reading connect_read (read_full 10 after_handshake)
  connected ← checked connect_failed (is_connected reply) reply
  (len, body) ← reading length_read (read_full 2 after_connect)
  small ← checked too_large (leb (length_of len) 4096) len
  (response, rest) ← reading response_read (read_full (length_of len) body)
  ok response
