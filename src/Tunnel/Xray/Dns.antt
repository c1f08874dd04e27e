-- ===== src/Tunnel/Xray/Dns.antt =====
-- `xrayDNSConfig` of internal/tunnel/configgen.go. `is_ip` is `net.ParseIP`.
use bypath.Base.{
  String, string_eq, Bool, ◌||◌, List, [], ◌∷◌, ◌++◌, map, any, if◌then◌else◌, ◌==◌, ◌<>◌,
  trim_space,
}
use bypath.Profile.{Link}
use bypath.Tunnel.{ConfigGenerator, LocalDnsRule}
use bypath.Tunnel.Json.{Object, Value, text, texts, object, mixed, mixed_of, object_of}
use bypath.Tunnel.Names.{proxy_dns_server}
use bypath.Tunnel.Route.{has_any}
use bypath.Tunnel.Dns.{is_used}

-- the address of DNS over HTTPS at a server
abbrev pub doh : (String → Bool) → String → String
doh is_ip upstream = if is_ip upstream then "https://" <> upstream <> "/dns-query" else upstream

abbrev pub upstream_of : List String → String
upstream_of [] = "1.1.1.1"
upstream_of (u ∷ us) = u

-- the new names of a list, trimmed, behind a prefix, and all names that are seen then
unfoldable pub new_names : String → List String → List String → List String × List String
new_names prefix seen [] = ([], seen)
new_names prefix seen (name ∷ names) =
    let h = trim_space name in
    let (same, same_seen) = new_names prefix seen names in
    let (more, more_seen) = new_names prefix (h ∷ seen) names in
    if h == "" || any (λ s. s == h) seen
    then (same, same_seen)
    else ((prefix <> h) ∷ more, more_seen)

-- the names that are resolved without the proxy
unfoldable pub bootstrap_domains : ConfigGenerator → Link → List String
bootstrap_domains cg link =
    let (hosts, seen) = new_names "full:" [] (link.address ∷ link.sni ∷ link.host ∷ []) in
    let (bypassed, all) = new_names "domain:" seen cg.bypass_domains in hosts ++ bypassed

abbrev server_for : String → List String → Value
server_for address names =
    object (object_of (("address", text address) ∷ ("domains", texts names) ∷ []))

abbrev value_if : Bool → Value → List Value
value_if b v = if b then v ∷ [] else []

unfoldable pub xray_local_servers : List LocalDnsRule → List Value
xray_local_servers [] = []
xray_local_servers (rule ∷ rules) =
    value_if (is_used rule) (server_for rule.server (map (λ d. "domain:" <> d) rule.domains))
    ++ xray_local_servers rules

-- the servers, in the order in which they are asked
unfoldable pub xray_servers : (String → Bool) → ConfigGenerator → Link → List Value
xray_servers is_ip cg link =
    let direct = doh is_ip (upstream_of cg.dns_upstream) in
    let proxied = doh is_ip (proxy_dns_server cg) in
    let domains = bootstrap_domains cg link in
    xray_local_servers cg.local_dns_rules
    ++ (value_if (has_any domains) (server_for direct domains)
        ++ (object (object_of (("address", text proxied) ∷ ("proxyTag", text "proxy") ∷ []))
            ∷ text direct
            ∷ []))

-- `xrayDNSConfig`
unfoldable pub xray_dns_config : (String → Bool) → ConfigGenerator → Link → Object
xray_dns_config is_ip cg link = object_of (
    ("servers", mixed (mixed_of (xray_servers is_ip cg link)))
    ∷ ("queryStrategy", text "UseIPv4")
    ∷ [])
