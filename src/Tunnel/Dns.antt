-- ===== src/Tunnel/Dns.antt =====
-- The DNS section of a sing-box configuration: `singboxDNS` of internal/tunnel/configgen.go.
pub mod Served
pub mod Dangling
pub mod Hosts
use bypath.Base.{
  ℕ, suc, pos, String, string_eq, Bool, true, false, not, ◌&&◌, ◌||◌, Option, none, some, List, [],
  ◌∷◌, ◌++◌, map, any, if◌then◌else◌, ◌==◌, ◌<>◌, cut_first, format_nat,
}
use bypath.Profile.{Link}
use bypath.Tunnel.{ConfigGenerator, RoutingRule, LocalDnsRule}
use bypath.Tunnel.Json.{Object, Value, text, number, texts, put_if, object_of, array_of, switch}
use bypath.Tunnel.Names.{proxy_dns_server}
use bypath.Tunnel.Route.{GeoFiles, has_any, with_geosite, srs, rule_if}

abbrev pub udp_server : String → String → Object
udp_server tag address = object_of (
    ("tag", text tag)
    ∷ ("type", text "udp")
    ∷ ("server", text address)
    ∷ ("server_port", number (pos 53))
    ∷ [])

abbrev pub direct_server : Object
direct_server = udp_server "dns-direct" "1.1.1.1"

abbrev pub tunnel_server : ConfigGenerator → Object
tunnel_server cg = object_of (
    ("tag", text "dns-tunnel")
    ∷ ("type", text "https")
    ∷ ("server", text (proxy_dns_server cg))
    ∷ ("detour", text "proxy")
    ∷ [])

-- a rule that resolves what a list names by a server
abbrev pub resolved_by : String → String → List String → Object
resolved_by server key names = object_of ((key, texts names) ∷ ("server", text server) ∷ [])

-- the names that are set, new and no addresses, behind those in `seen`; `is_ip` is `net.ParseIP`
unfoldable pub host_names : (String → Bool) → List String → List String → List String
host_names is_ip seen [] = []
host_names is_ip seen (candidate ∷ candidates) =
    let same = host_names is_ip seen candidates in
    let more = host_names is_ip (candidate ∷ seen) candidates in
    if candidate == "" || any (λ name. name == candidate) seen
    then same
    else if is_ip candidate
    then more
    else candidate ∷ more

-- the names of a link's server
unfoldable pub proxy_domains : (String → Bool) → Option Link → List String
proxy_domains is_ip none = []
proxy_domains is_ip (some link) = host_names is_ip [] (link.address ∷ link.sni ∷ link.host ∷ [])

-- the rule for the names of the proxy server
abbrev pub proxy_rule : (String → Bool) → Option Link → List Object
proxy_rule is_ip link =
    let names = proxy_domains is_ip link in
    rule_if (has_any names) (resolved_by "dns-direct" "domain" names)

-- the rules that a routing rule adds
unfoldable pub rules_of_direct : GeoFiles → RoutingRule → List Object
rules_of_direct geo rule =
    let nothing : List Object = [] in
    let by : String → String → List Object =
      λ key val. resolved_by "dns-direct" key (val ∷ []) ∷ [] in
    let added : List Object = elim (cut_first b':' rule.matcher) [
      | none ↦ []
      | some (typ, val) ↦
          switch typ
            ((
              "geosite",
              rule_if (geo.has_file (geo.path (srs "geosite-" val)))
                  (resolved_by "dns-direct" "rule_set" (("geosite-" <> val) ∷ [])),
            )
              ∷ ("geoip", by "rule_set" ("geoip-" <> val))
              ∷ ("domain_suffix", by "domain_suffix" val)
              ∷ ("domain", by "domain" val)
              ∷ [])
            []
    ] in
    if not (rule.outbound == "direct") || rule.matcher == "default" then nothing else added

unfoldable pub derived_rules : GeoFiles → List RoutingRule → List Object
derived_rules geo [] = []
derived_rules geo (rule ∷ rules) = rules_of_direct geo rule ++ derived_rules geo rules

-- the rule for the countries with a geosite file, where there are no routing rules
abbrev pub geosite_rule : GeoFiles → ConfigGenerator → List Object
geosite_rule geo cg =
    let tags = map (λ country. "geosite-" <> country) (with_geosite geo cg.geosite_countries) in
    rule_if (has_any tags) (resolved_by "dns-direct" "rule_set" tags)

-- A local server that is used: it has an address and domains.
abbrev pub is_used : LocalDnsRule → Bool
is_used rule = not (rule.server == "") && has_any rule.domains

-- `dns-local-<i>`
abbrev pub local_tag : ℕ → String
local_tag i = "dns-local-" <> format_nat i

-- The rules for the local domains. Their servers are appended to a slice that the section does not
-- hold, since it was stored there before.
unfoldable pub local_dns_rules : ℕ → List LocalDnsRule → List Object
local_dns_rules i [] = []
local_dns_rules i (rule ∷ rules) =
    rule_if (is_used rule) (resolved_by (local_tag i) "domain_suffix" rule.domains)
    ++ local_dns_rules (suc i) rules

-- the rules of the split section
unfoldable pub dns_rules : (String → Bool) → GeoFiles → ConfigGenerator → Option Link → List Object
dns_rules is_ip geo cg link =
    local_dns_rules 0 cg.local_dns_rules
    ++ (proxy_rule is_ip link
        ++ (if has_any cg.routing_rules
            then derived_rules geo cg.routing_rules
            else geosite_rule geo cg))

-- Without the gateway, countries and rules, names are resolved directly.
abbrev pub is_simple : ConfigGenerator → Bool
is_simple cg =
    not cg.gateway_mode
    && not (has_any cg.geosite_countries || has_any cg.whitelist_countries)
    && not (has_any cg.routing_rules)
    && not (has_any cg.local_dns_rules)

abbrev pub dns_section : List Object → String → List Object → Object
dns_section servers final rules =
    put_if (has_any rules) "rules" (array_of rules)
      (object_of (("servers", array_of servers) ∷ ("final", text final) ∷ []))

-- `singboxDNS`
unfoldable pub singbox_dns : (String → Bool) → GeoFiles → ConfigGenerator → Option Link → Object
singbox_dns is_ip geo cg link =
    if is_simple cg
    then dns_section (direct_server ∷ []) "dns-direct" []
    else dns_section (tunnel_server cg ∷ direct_server ∷ []) "dns-tunnel"
        (dns_rules is_ip geo cg link)
