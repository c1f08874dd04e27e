-- ===== src/Dns/Tests.antt =====
-- Runs of the exchange through the SOCKS proxy on concrete bytes.
use bypath.Base.{none, [], ◌∷◌, ◌++◌, ◌≡◌, refl, ok, err, length, arith}
use bypath.Dns.Socks.{
  Bytes, ip4, connect_request, forward_via_socks, parse_host_port, read_full, two_bytes, too_large,
  address_bytes,
}
use bypath.Dns.Socks.Exchange.{forward_via_socks-response}

abbrev query : Bytes
query = 0xab ∷ 0xcd ∷ 0x01 ∷ []

abbrev eight_zeros : Bytes
eight_zeros = 0 ∷ 0 ∷ 0 ∷ 0 ∷ 0 ∷ 0 ∷ 0 ∷ 0 ∷ []

request_run : connect_request (ip4 1 1 1 1) 53 ≡ 5 ∷ 1 ∷ 0 ∷ 1 ∷ 1 ∷ 1 ∷ 1 ∷ 1 ∷ 0 ∷ 53 ∷ []
unfolding connect_request address_bytes
request_run = refl

upstream_run : parse_host_port (λ a. none) "1.1.1.1" ≡ ("1.1.1.1", 53)
unfolding parse_host_port
upstream_run = refl

forward_via_socks-response_example :
    forward_via_socks
      ((5 ∷ 0 ∷ []) ++ ((5 ∷ 0 ∷ eight_zeros) ++ (two_bytes (length query) ++ (query ++ []))))
    ≡ ok query
forward_via_socks-response_example =
    forward_via_socks-response 5 eight_zeros query [] refl (omega arith)

-- a proxy that answers with a name, as RFC 1928 lets it, makes the reply longer than ten bytes
long_reply_run :
    forward_via_socks (
      (5 ∷ 0 ∷ [])
      ++ ((5 ∷ 0 ∷ 0 ∷ 3 ∷ 4 ∷ 97 ∷ 98 ∷ 99 ∷ 100 ∷ 0 ∷ []) ++ (53 ∷ two_bytes 3 ++ query)))
    ≡ err too_large
unfolding forward_via_socks read_full
long_reply_run = refl
