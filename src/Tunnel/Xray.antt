-- ===== src/Tunnel/Xray.antt =====
-- The xray configuration of one link: `generateXray` of internal/tunnel/configgen.go. Its DNS section
-- stands in Xray/Dns, its outbounds in Xray/Outbounds.
pub mod Outbounds
pub mod Order
pub mod Dns
use bypath.Base.{
  ℕ, ltb, any, ℤ, pos, int_eq, String, string_eq, Bool, true, false, not, ◌&&◌, ◌||◌, Option, none,
  some, List, [], ◌∷◌, ◌++◌, map, select, if◌then◌else◌, ◌==◌, ◌<>◌, cut_first,
}
use bypath.Profile.{Link}
use bypath.Tunnel.{ConfigGenerator, RoutingRule, LocalDnsRule}
use bypath.Tunnel.Json.{
  Object, Value, text, number, flag, texts, object, put, put_if, object_of, array_of, switch,
}
use bypath.Tunnel.Route.{has_any, rule_if}
use bypath.Tunnel.Singbox.{World, listen_port}
use bypath.Tunnel.Xray.Outbounds.{xray_outbounds, xray_external_outbounds}
use bypath.Tunnel.Xray.Dns.{xray_dns_config}

-- a rule for what a list names
abbrev pub field_rule : String → List String → String → Object
field_rule key names outbound =
    object_of (("type", text "field") ∷ (key, texts names) ∷ ("outboundTag", text outbound) ∷ [])

abbrev pub private_rule : Object
private_rule =
    field_rule "ip"
      ("10.0.0.0/8" ∷ "172.16.0.0/12" ∷ "192.168.0.0/16" ∷ "127.0.0.0/8" ∷ "fc00::/7" ∷ "::1/128"
        ∷ [])
      "direct"

-- the rules for the domains of the local DNS servers
unfoldable pub xray_local_rules : List LocalDnsRule → List Object
xray_local_rules rules =
    map (λ (r : LocalDnsRule). field_rule "domain" (map (λ d. "domain:" <> d) r.domains) "direct")
      (select (λ (r : LocalDnsRule). has_any r.domains) rules)

-- `xrayRuleFromMatcher`; `geosite` is `xrayGeositeAvailable()`
unfoldable pub xray_rule_from_matcher : Bool → String → String → Option Object
xray_rule_from_matcher geosite matcher outbound = elim (cut_first b':' matcher) [
  | none ↦ none
  | some (typ, val) ↦
      let rule : String → String → Option Object = λ key name. some (
        put key (texts (name ∷ []))
          (object_of (("type", text "field") ∷ ("outboundTag", text outbound) ∷ []))) in
      switch typ
        (("geoip", rule "ip" ("geoip:" <> val))
          ∷ ("geosite", if geosite then rule "domain" ("geosite:" <> val) else none)
          ∷ ("domain", rule "domain" ("full:" <> val))
          ∷ ("domain_suffix", rule "domain" ("domain:" <> val))
          ∷ ("ip_cidr", rule "ip" val)
          ∷ [])
        none
]

abbrev is_large : Option ℕ → Bool
is_large none = false
is_large (some bytes) = ltb 1000 bytes

-- `xrayGeositeAvailable`; `size_of` is the size that `os.Stat` finds, and `engine_dir` is `EngineDir`
unfoldable pub xray_geosite_available : (String → Option ℕ) → String → Bool
xray_geosite_available size_of engine_dir =
    any (λ path. is_large (size_of path))
      ((engine_dir <> "/geosite.dat")
        ∷ "/usr/local/share/xray/geosite.dat"
        ∷ "/usr/share/xray/geosite.dat"
        ∷ "/etc/bypath/geo/geosite.dat"
        ∷ [])

-- the rules, and the outbound of the catch-all, behind the loop of `xrayRouteFromRules`
unfoldable pub xray_steps : Bool → List Object × String → List RoutingRule → List Object × String
xray_steps geosite (rules, final) [] = (rules, final)
xray_steps geosite (rules, final) (rule ∷ rest) =
    let added : List Object = elim (xray_rule_from_matcher geosite rule.matcher rule.outbound) [
      | none ↦ rules
      | some xray_rule ↦ rules ++ (xray_rule ∷ [])
    ] in
    let is_default = rule.matcher == "default" in
    xray_steps geosite
      (if is_default then rules else added, if is_default then rule.outbound else final) rest

abbrev pub catch_all : String → Object
catch_all outbound =
    object_of
      (("type", text "field") ∷ ("network", text "tcp,udp") ∷ ("outboundTag", text outbound) ∷ [])

-- the rules of `xrayRouteFromRules`
unfoldable pub xray_rules : Bool → ConfigGenerator → List Object
xray_rules geosite cg =
    let (rules, final) =
      xray_steps geosite (private_rule ∷ xray_local_rules cg.local_dns_rules, "proxy")
        cg.routing_rules in
    rules ++ (catch_all final ∷ [])

abbrev pub routing_section : List Object → Object
routing_section rules =
    object_of (("domainStrategy", text "IPIfNonMatch") ∷ ("rules", array_of rules) ∷ [])

-- `xrayRouteFromRules`
unfoldable pub xray_route_from_rules : Bool → ConfigGenerator → Object
xray_route_from_rules geosite cg = routing_section (xray_rules geosite cg)

-- the rules without routing rules
unfoldable pub xray_legacy_rules : ConfigGenerator → List Object
xray_legacy_rules cg =
    private_rule
      ∷ rule_if (has_any cg.force_proxy_domains)
          (field_rule "domain" cg.force_proxy_domains "proxy")
    ++ (xray_local_rules cg.local_dns_rules
        ++ (rule_if (has_any cg.bypass_domains) (field_rule "domain" cg.bypass_domains "direct")
            ++ map (λ country. field_rule "ip" (("geoip:" <> country) ∷ []) "direct")
                cg.whitelist_countries))

-- the routing section, if there is one
abbrev pub xray_routing : Bool → ConfigGenerator → Object → Object
xray_routing geosite cg cfg =
    if has_any cg.routing_rules
    then put "routing" (object (xray_route_from_rules geosite cg)) cfg
    else put_if
        (has_any cg.whitelist_countries
          || has_any cg.bypass_domains
          || has_any cg.force_proxy_domains)
        "routing" (object (routing_section (xray_legacy_rules cg))) cfg

abbrev xray_inbound : ConfigGenerator → Link → Object
xray_inbound cg link = object_of (
    ("port", number (listen_port cg link))
    ∷ ("listen", text "0.0.0.0")
    ∷ ("protocol", text "socks")
    ∷ ("settings", object (object_of (("auth", text "noauth") ∷ ("udp", flag true) ∷ [])))
    ∷ (
      "sniffing",
      object (
          object_of (
            ("enabled", flag true)
            ∷ ("destOverride", texts ("http" ∷ "tls" ∷ []))
            ∷ ("routeOnly", flag true)
            ∷ [])),
    )
    ∷ [])

-- `generateXray`: the configuration that it writes
unfoldable pub generate_xray : World → Bool → ConfigGenerator → Link → Object
generate_xray world geosite cg link = xray_routing geosite cg (
    object_of (
      ("log", object (object_of (("loglevel", text "warning") ∷ [])))
      ∷ ("dns", object (xray_dns_config world.is_ip cg link))
      ∷ ("inbounds", array_of (xray_inbound cg link ∷ []))
      ∷ ("outbounds", array_of (xray_outbounds link ++ xray_external_outbounds world cg))
      ∷ []))
