-- ===== src/Gateway/Tests.antt =====
-- Runs of what the gateway writes and asks, and the theorems about it at concrete inputs.
use mathlib.Core.Option.{some-injective}
use bypath.Base.{
  String, string_eq, Bool, true, false, List, [], ◌∷◌, ◌++◌, none, some, ok, All, select,
  whole_lines, contains, contains_text, ◌≡◌, ◌==◌, refl, subst, arith, split, join, ends_in,
  to_lower, trim_end, if◌then◌else◌,
}
use bypath.Config.{LocalDnsEntry}
use bypath.Gateway.Samples.{sample, moved, sample-IsPlainConfig, moved-IsPlainConfig}
use bypath.Dns.Socks.{ip4, domain}
use bypath.Dns.Socks.Exchange.{read_request}
use bypath.Gateway.Hosts.{
  Net, newline, or_public, pinned, pin_host_to_etc_hosts, unpin_hosts_from_etc_hosts, first_address,
  answer_of, is_intercepted, marker,
}
use bypath.Gateway.Hosts.Lines.{unmarked}
use bypath.Gateway.Hosts.Pinned.{Pins, pin_host_to_etc_hosts-Pins, unpin_hosts_from_etc_hosts-pin}
use bypath.Gateway.Reload.{reload, local_dns_changed, entries_changed}
use bypath.Gateway.Reload.Listed.{Restarts, reload-Restarts}
use bypath.Gateway.Query.{Servers, local, tunnelled, direct, answer_query}
use bypath.Gateway.Query.Private.{Routed, answer_query-Routed}
use bypath.Gateway.Socks5.{socks5_request, socks5_connect}
use bypath.Gateway.Socks5.Rest.{success, socks5_connect-exchange}

abbrev answers : String → List String
answers ns = if ns == "1.1.1.1" then "10.10.34.36" ∷ [] else "203.0.113.7" ∷ []

abbrev two_servers : Net
two_servers = record {
  parse_ip = λ s.
      if s == "10.10.34.36"
      then some (record { is_loopback = false; is_private = true })
      else if s == "203.0.113.7"
      then some (record { is_loopback = false; is_private = false })
      else none;
  lookup_host = λ ns name. some (answers ns);
}

abbrev servers : List String
servers = "1.1.1.1" ∷ "9.9.9.9" ∷ []

abbrev other_lines : List String
other_lines = "203.0.113.1 vpn.example # bypath-pin" ∷ "::1 localhost" ∷ []

pin_rejects_intercepted :
    pin_host_to_etc_hosts two_servers servers true "vpn.example"
      (some (whole_lines newline ("127.0.0.1 localhost" ∷ other_lines)))
    ≡ (
      some "127.0.0.1 localhost\n::1 localhost\n203.0.113.7 vpn.example # bypath-pin\n",
      "203.0.113.7",
    )
unfolding pin_host_to_etc_hosts first_address answer_of is_intercepted pinned split select join
    contains_text ends_in
pin_rejects_intercepted = refl

lines_plain : All (λ line. contains b'\n' line ≡ false) ("127.0.0.1 localhost" ∷ other_lines)
unfolding contains
lines_plain = (refl, (refl, (refl, tt)))

unmarked_first : contains_text "127.0.0.1 localhost" marker ≡ false
unfolding contains_text
unmarked_first = refl

pin_host_to_etc_hosts-Pins_example :
    Pins two_servers (or_public servers) true "vpn.example" "127.0.0.1 localhost" other_lines (
      pin_host_to_etc_hosts two_servers servers true "vpn.example"
        (some (whole_lines newline ("127.0.0.1 localhost" ∷ other_lines))))
pin_host_to_etc_hosts-Pins_example =
    pin_host_to_etc_hosts-Pins two_servers servers true "vpn.example" "127.0.0.1 localhost"
      other_lines lines_plain unmarked_first

answers_plain : (ns : String) → All (λ line. contains b'\n' line ≡ false) (answers ns)
unfolding contains
answers_plain ns = by_test (ns == "1.1.1.1")
  where
    by_test :
        (b : Bool)
        → All
            (λ line. contains b'\n' line ≡ false)
            (if b then "10.10.34.36" ∷ [] else "203.0.113.7" ∷ [])
    by_test true = (refl, tt)
    by_test false = (refl, tt)

lookups_plain :
    (ns : String) (found : List String)
    → two_servers.lookup_host ns "vpn.example" ≡ some found
    → All (λ line. contains b'\n' line ≡ false) found
lookups_plain ns found e =
    subst (All (λ line. contains b'\n' line ≡ false)) (some-injective _ _ e) (answers_plain ns)

host_plain : contains b'\n' "vpn.example" ≡ false
unfolding contains
host_plain = refl

unpin_hosts_from_etc_hosts-pin_example :
    unpin_hosts_from_etc_hosts true
      (pin_host_to_etc_hosts two_servers servers true "vpn.example"
        (some (whole_lines newline ("127.0.0.1 localhost" ∷ other_lines)))).0
    ≡ some (whole_lines newline ("127.0.0.1 localhost" ∷ unmarked other_lines))
unpin_hosts_from_etc_hosts-pin_example =
    unpin_hosts_from_etc_hosts-pin two_servers servers true "vpn.example" "127.0.0.1 localhost"
      other_lines host_plain lookups_plain lines_plain unmarked_first

abbrev dhcp : String
dhcp = "nameserver 192.168.1.1\n"

abbrev home_dns : LocalDnsEntry
home_dns = record { server = "192.168.1.1"; domains = "home" ∷ "lan" ∷ [] }

abbrev answering : Servers String
answering = record {
  is_ip = λ s. s == "1.1.1.1";
  takes_url = λ url. true;
  packs = true;
  gives = λ c. elim c [ local server ↦ none | tunnelled url ↦ none | direct server ↦ some server ];
}

answer_query-Routed_example :
    Routed answering
      (home_dns ∷ [])
      ("1.1.1.1" ∷ [])
      (trim_end b'.' (to_lower "NAS.home."))
      (answer_query answering (home_dns ∷ []) ("1.1.1.1" ∷ []) (some "NAS.home."))
answer_query-Routed_example =
    answer_query-Routed answering (home_dns ∷ []) ("1.1.1.1" ∷ []) "NAS.home."

socks5_connect-exchange_example :
    (read_request (socks5_request (99 ∷ 100 ∷ []) 443 ++ 22 ∷ [])
      ≡ some (domain (99 ∷ 100 ∷ []), 443, 22 ∷ []))
    × (socks5_connect ((5 ∷ 0 ∷ []) ++ (success 0 (ip4 0 0 0 0) 0 ++ 1 ∷ 2 ∷ [])) ≡ ok (1 ∷ 2 ∷ []))
socks5_connect-exchange_example =
    socks5_connect-exchange (99 ∷ 100 ∷ []) 443 5 0 0 (ip4 0 0 0 0) (22 ∷ []) (1 ∷ 2 ∷ [])
      (omega arith) (omega arith) tt

reload-Restarts_example :
    ((reload sample moved).0 ≡ moved) × Restarts sample moved (reload sample moved).1
reload-Restarts_example = reload-Restarts sample moved sample-IsPlainConfig moved-IsPlainConfig

reload_run : (reload sample moved).1 ≡ "server.socks_port" ∷ "gateway.local_dns" ∷ []
unfolding reload join local_dns_changed entries_changed
reload_run = refl
