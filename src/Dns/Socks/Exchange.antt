-- ===== src/Dns/Socks/Exchange.antt =====
-- What the two ends of the connection through the proxy read of one another's bytes.
use mathlib.Core.List.{[], ◌∷◌}
use bypath.Base.{
  ℕ, ◌+◌, ◌*◌, ◌/◌, ◌%◌, ◌<◌, ◌≤◌, nat_eq, true, Option, none, some, ◌++◌, length, if◌then◌else◌,
  ◌==◌, leb, ◌≡◌, refl, sym, ap, ◌∙◌, ok, arith, append_assoc,
}
use bypath.Dns.Socks.{
  Bytes, Host, ip4, ip6, domain, two_bytes, address_bytes, connect_request, dns_request, read_full,
  forward_via_socks,
}

pub read_full-append : (xs ys : Bytes) → read_full (length xs) (xs ++ ys) ≡ some (xs, ys)
unfolding read_full
read_full-append [] ys = refl
read_full-append (x ∷ xs) ys = rw (read_full-append xs ys) refl

two_bytes-join : (n : ℕ) → n < 65536 → n / 256 % 256 * 256 + n % 256 ≡ n
two_bytes-join n h = omega (arith, h)

-- An upstream server that speaks DNS over TCP reads the length and then the query.
unfoldable pub read_message : Bytes → Option (Bytes × Bytes)
read_message (high ∷ low ∷ bs) = read_full (high * 256 + low) bs
read_message _ = none

-- The upstream server reads the query that was sent, if it has less than 65536 bytes, and nothing more.
read_message-dns_request :
    (query rest : Bytes)
    → length query < 65536
    → read_message (dns_request query ++ rest) ≡ some (query, rest)
unfolding read_message dns_request
read_message-dns_request query rest h =
    ap (λ n. read_full n (query ++ rest)) (two_bytes-join (length query) h)
    ∙ read_full-append query rest

-- The response of the upstream server comes back whole, if it has no more than 4096 bytes and the
-- proxy answers the handshake and then the request with success in ten bytes.
pub forward_via_socks-response :
    (version : ℕ) (eight response rest : Bytes)
    → length eight ≡ 8
    → length response ≤ 4096
    → forward_via_socks (
        (0x05 ∷ 0x00 ∷ [])
        ++ ((version ∷ 0x00 ∷ eight) ++ (two_bytes (length response) ++ (response ++ rest))))
      ≡ ok response
unfolding forward_via_socks read_full
forward_via_socks-response version eight response rest is_eight short =
    let len = length response in
    let after = two_bytes len ++ (response ++ rest) in
    let eight_read : read_full 8 (eight ++ after) ≡ some (eight, after) =
      ap (λ n. read_full n (eight ++ after)) (sym is_eight) ∙ read_full-append eight after in
    let fits : leb len 4096 ≡ true = ground (arith, short) in
    rw eight_read (
      rw (two_bytes-join len (omega (arith, short)))
        (rw fits (rw (read_full-append response rest) refl)))

-- A proxy that follows RFC 1928 reads the address and the port of a request.
abbrev four : Bytes → Host
four (a ∷ b ∷ c ∷ d ∷ _) = ip4 a b c d
four bs = domain bs

abbrev with_port : (Bytes → Host) → Option (Bytes × Bytes) → Option (Host × ℕ × Bytes)
with_port host (some (address, high ∷ low ∷ rest)) = some (host address, high * 256 + low, rest)
with_port host _ = none

abbrev named : Bytes → Option (Host × ℕ × Bytes)
named (n ∷ bs) = with_port domain (read_full n bs)
named [] = none

unfoldable pub read_request : Bytes → Option (Host × ℕ × Bytes)
read_request (version ∷ command ∷ reserved ∷ kind ∷ bs) =
    if kind == 1
    then with_port four (read_full 4 bs)
    else if kind == 4
    then with_port ip6 (read_full 16 bs)
    else if kind == 3
    then named bs
    else none
read_request _ = none

with_port-read :
    (host : Bytes → Host) (bs : Bytes) (port : ℕ) (rest : Bytes) (n : ℕ)
    → n ≡ length bs
    → port < 65536
    → with_port host (read_full n ((bs ++ two_bytes port) ++ rest)) ≡ some (host bs, port, rest)
with_port-read host bs port rest n same small =
    ap (λ k. with_port host (read_full k ((bs ++ two_bytes port) ++ rest))) same
    ∙ ap (λ xs. with_port host (read_full (length bs) xs)) (append_assoc bs (two_bytes port) rest)
    ∙ ap (with_port host) (read_full-append bs (two_bytes port ++ rest))
    ∙ ap (λ p. some (host bs, p, rest)) (two_bytes-join port small)

-- A host that a request can hold: an IPv6 address of sixteen bytes, or a name of less than 256.
abbrev pub IsSendable : Host → Type 0
IsSendable (ip4 a b c d) = Unit
IsSendable (ip6 bs) = length bs ≡ 16
IsSendable (domain bs) = length bs < 256

-- The proxy reads the host and the port that were meant, if the host can be held and the port has 16
-- bits, and nothing more.
pub read_request-connect_request :
    (host : Host) (port : ℕ) (rest : Bytes)
    → IsSendable host
    → port < 65536
    → read_request (connect_request host port ++ rest) ≡ some (host, port, rest)
unfolding read_request connect_request address_bytes read_full
read_request-connect_request (ip4 a b c d) port rest fits small =
    ap (λ p. some (ip4 a b c d, p, rest)) (two_bytes-join port small)
read_request-connect_request (ip6 bs) port rest fits small =
    with_port-read ip6 bs port rest 16 (sym fits) small
read_request-connect_request (domain bs) port rest fits small =
    with_port-read domain bs port rest (length bs % 256) (omega (arith, fits)) small
