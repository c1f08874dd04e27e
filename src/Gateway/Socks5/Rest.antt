-- ===== src/Gateway/Socks5/Rest.antt =====
-- What the proxy reads, and what is left of its answer.
use mathlib.Core.List.{[], ◌∷◌}
use bypath.Base.{
  ℕ, ◌+◌, ◌%◌, ◌<◌, nat_eq, some, ◌++◌, length, ◌≡◌, refl, ap, sym, ◌∙◌, ok, arith, length-append,
}
use bypath.Dns.Socks.{
  Bytes, Host, ip4, ip6, domain, two_bytes, address_bytes, read_full, connect_request,
}
use bypath.Dns.Socks.Exchange.{IsSendable, read_request, read_request-connect_request}
use bypath.Gateway.Socks5.{socks5_request, skip, skip_address, socks5_connect}

read_request-socks5_request :
    (host : Bytes) (port : ℕ) (rest : Bytes)
    → length host < 256
    → port < 65536
    → read_request (socks5_request host port ++ rest) ≡ some (domain host, port, rest)
unfolding socks5_request connect_request address_bytes
read_request-socks5_request host port rest short small =
    ap (λ r. read_request (r ++ rest)) same
    ∙ read_request-connect_request (domain host) port rest short small
  where
    same : socks5_request host port ≡ connect_request (domain host) port
    same = refl

skip-append : (xs ys : Bytes) → skip (length xs) (xs ++ ys) ≡ ys
unfolding skip
skip-append [] ys = refl
skip-append (x ∷ xs) ys = skip-append xs ys

skip-address :
    (n : ℕ) (bs : Bytes) (port : ℕ) (rest : Bytes)
    → n ≡ length bs + 2
    → skip n ((bs ++ two_bytes port) ++ rest) ≡ rest
skip-address n bs port rest e =
    ap (λ k. skip k ((bs ++ two_bytes port) ++ rest)) (e ∙ sym (length-append bs (two_bytes port)))
    ∙ skip-append (bs ++ two_bytes port) rest

-- A reply of RFC 1928 to a request that succeeds.
abbrev pub success : ℕ → Host → ℕ → Bytes
success reserved bound port = (5 ∷ 0 ∷ reserved ∷ address_bytes bound) ++ two_bytes port

socks5_connect-rest :
    (version reserved port : ℕ) (bound : Host) (rest : Bytes)
    → IsSendable bound
    → socks5_connect ((version ∷ 0 ∷ []) ++ (success reserved bound port ++ rest)) ≡ ok rest
unfolding socks5_connect read_full address_bytes skip_address skip
socks5_connect-rest version reserved port (ip4 a b c d) rest fits = refl
socks5_connect-rest version reserved port (ip6 bs) rest fits =
    ap ok (skip-address 18 bs port rest (omega (arith, fits)))
socks5_connect-rest version reserved port (domain bs) rest fits =
    ap ok (skip-address (length bs % 256 + 2) bs port rest (omega (arith, fits)))

-- If the name has less than 256 bytes and the port has 16 bits, a proxy that follows RFC 1928 reads from the
-- request what was meant, and nothing more. Behind its reply of success, whatever address that has, the
-- caller reads exactly what the proxy sends next.
pub socks5_connect-exchange :
    (host : Bytes) (port version reserved bound_port : ℕ) (bound : Host) (sent received : Bytes)
    → length host < 256
    → port < 65536
    → IsSendable bound
    → (read_request (socks5_request host port ++ sent) ≡ some (domain host, port, sent))
      × (socks5_connect ((version ∷ 0 ∷ []) ++ (success reserved bound bound_port ++ received))
          ≡ ok received)
socks5_connect-exchange host port version reserved bound_port bound sent received short small fits =
    (
      read_request-socks5_request host port sent short small,
      socks5_connect-rest version reserved bound_port bound received fits,
    )
