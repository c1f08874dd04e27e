-- ===== src/Tunnel/Route.antt =====
-- The route section of a sing-box configuration, in internal/tunnel/configgen.go.
pub mod Convert
pub mod Closed
pub mod Section
pub mod Order
use bypath.Base.{
  pos, String, string_eq, Bool, true, false, not, ◌&&◌, ◌||◌, Option, none, some, List, [], ◌∷◌,
  ◌++◌, map, select, any, if◌then◌else◌, ◌==◌, ◌<>◌, cut_first,
}
use bypath.Tunnel.{ConfigGenerator, RoutingRule, LocalDnsRule}
use bypath.Tunnel.Json.{
  Object, Value, text, flag, texts, put, put_if, get, object_of, array_of, switch,
}

-- the files of the folder `GeoDir`: the path of a name, and whether `os.Stat` finds it
pub record GeoFiles : Type 0 where
  pub path : String → String
  pub has_file : String → Bool

abbrev pub srs : String → String → String
srs prefix val = prefix <> val <> ".srs"

-- the definition of a rule set in a local file
abbrev pub local_rule_set : GeoFiles → String → String → Object
local_rule_set geo prefix val = object_of (
    ("type", text "local")
    ∷ ("tag", text (prefix <> val))
    ∷ ("format", text "binary")
    ∷ ("path", text (geo.path (srs prefix val)))
    ∷ [])

abbrev pub if_file : GeoFiles → String → String → Option Object
if_file geo prefix val =
    if geo.has_file (geo.path (srs prefix val)) then some (local_rule_set geo prefix val) else none

-- the rule set of the two parts of a matcher
unfoldable pub rule_set_by_type : GeoFiles → String → String → Option Object
rule_set_by_type geo typ val =
    switch typ (("geoip", if_file geo "geoip-" val) ∷ ("geosite", if_file geo "geosite-" val) ∷ [])
      none

-- `ruleSetForMatcher`
unfoldable pub rule_set_for_matcher : GeoFiles → String → Option Object
rule_set_for_matcher geo matcher = elim (cut_first b':' matcher) [
  | none ↦ none
  | some (typ, val) ↦ rule_set_by_type geo typ val
]

-- the rule with a field that lists one text
abbrev pub matching : String → String → String → Object
matching outbound key val =
    put key (texts (val ∷ []))
      (object_of (("action", text "route") ∷ ("outbound", text outbound) ∷ []))

abbrev pub if_set : Option Object → Object → Option Object
if_set none rule = none
if_set (some rs) rule = some rule

-- the rule of the two parts of a matcher, with the rule set that belongs to it
unfoldable pub rule_by_type : Option Object → String → String → String → Option Object
rule_by_type rs typ val outbound =
    switch typ
      (("geoip", if_set rs (matching outbound "rule_set" ("geoip-" <> val)))
        ∷ ("geosite", if_set rs (matching outbound "rule_set" ("geosite-" <> val)))
        ∷ ("domain", some (matching outbound "domain" val))
        ∷ ("domain_suffix", some (matching outbound "domain_suffix" val))
        ∷ ("ip_cidr", some (matching outbound "ip_cidr" val))
        ∷ [])
      none

-- `singboxRuleFromMatcher`; none stands for nil
unfoldable pub singbox_rule_from_matcher : GeoFiles → String → String → Option Object
singbox_rule_from_matcher geo matcher outbound = elim (cut_first b':' matcher) [
  | none ↦ none
  | some (typ, val) ↦ rule_by_type (rule_set_for_matcher geo matcher) typ val outbound
]

-- `rs["tag"].(string)`
abbrev pub tag_of : Object → String
tag_of rs = elim (get "tag" rs) [ some (text tag) ↦ tag | _ ↦ "" ]

-- the variables of `singboxRouteFromRules`
pub record RouteState : Type 0 where
  pub rules : List Object
  pub seen_rule_sets : List String
  pub rule_sets : List Object
  pub final_outbound : String

-- the rule set of a rule, if it is not there yet
unfoldable pub add_rule_set : Option Object → RouteState → RouteState
add_rule_set none st = st
add_rule_set (some rs) st =
    let added = record st {
      seen_rule_sets = tag_of rs ∷ st.seen_rule_sets;
      rule_sets = st.rule_sets ++ (rs ∷ []);
    } in
    if any (λ tag. tag == tag_of rs) st.seen_rule_sets then st else added

-- one round of the loop over the routing rules
unfoldable pub route_step : GeoFiles → RouteState → RoutingRule → RouteState
route_step geo st rule =
    let default_set : RouteState = record st { final_outbound = rule.outbound } in
    let converted : RouteState = elim (singbox_rule_from_matcher geo rule.matcher rule.outbound) [
      | none ↦ st
      | some sb_rule ↦
          add_rule_set (rule_set_for_matcher geo rule.matcher)
            (record st { rules = st.rules ++ (sb_rule ∷ []) })
    ] in
    if rule.matcher == "default" then default_set else converted

unfoldable pub route_steps : GeoFiles → RouteState → List RoutingRule → RouteState
route_steps geo st [] = st
route_steps geo st (rule ∷ rules) = route_steps geo (route_step geo st rule) rules

abbrev pub has_any {ℓ} : {A : Type ℓ} → List A → Bool
has_any [] = false
has_any (x ∷ xs) = true

abbrev pub sniff : Object
sniff = object_of (("action", text "sniff") ∷ ("timeout", text "300ms") ∷ [])

abbrev pub resolve_by : String → Object
resolve_by server = object_of (("action", text "resolve") ∷ ("server", text server) ∷ [])

abbrev pub private_direct : Object
private_direct =
    object_of
      (("ip_is_private", flag true) ∷ ("action", text "route") ∷ ("outbound", text "direct") ∷ [])

-- a rule that sends what a list names to an outbound
abbrev pub listed : String → List String → String → Object
listed key names outbound =
    object_of ((key, texts names) ∷ ("action", text "route") ∷ ("outbound", text outbound) ∷ [])

-- the rules for the domains of the local DNS servers
unfoldable pub local_rules : List LocalDnsRule → List Object
local_rules rules =
    map (λ (r : LocalDnsRule). listed "domain_suffix" r.domains "direct")
      (select (λ (r : LocalDnsRule). has_any r.domains) rules)

-- the section, from its rules and the definitions of its rule sets
abbrev pub route_section : Bool → List Object → List Object → String → Object
route_section gateway rules rule_sets final =
    put_if (has_any rule_sets) "rule_set" (array_of rule_sets) (
      put_if gateway "auto_detect_interface" (flag true) (
        object_of (
          ("rules", array_of rules)
          ∷ ("final", text final)
          ∷ ("default_domain_resolver", text "dns-direct")
          ∷ [])))

-- the state after the loop of `singboxRouteFromRules`
unfoldable pub routed : GeoFiles → ConfigGenerator → RouteState
routed geo cg =
    route_steps geo
      (record {
        rules = sniff ∷ resolve_by "dns-tunnel" ∷ private_direct ∷ local_rules cg.local_dns_rules;
        seen_rule_sets = [];
        rule_sets = [];
        final_outbound = "proxy";
      })
      cg.routing_rules

-- `singboxRouteFromRules`
unfoldable pub singbox_route_from_rules : GeoFiles → ConfigGenerator → Object
singbox_route_from_rules geo cg =
    let st = routed geo cg in route_section cg.gateway_mode st.rules st.rule_sets st.final_outbound

-- the countries that have a geosite file
abbrev pub with_geosite : GeoFiles → List String → List String
with_geosite geo countries =
    select (λ country. geo.has_file (geo.path (srs "geosite-" country))) countries

-- `singboxGeositeRuleSets`
unfoldable pub singbox_geosite_rule_sets : GeoFiles → ConfigGenerator → List Object
singbox_geosite_rule_sets geo cg =
    map (local_rule_set geo "geosite-") (with_geosite geo cg.geosite_countries)

-- `singboxBypassDomainRule`
unfoldable pub singbox_bypass_domain_rule : ConfigGenerator → Object
singbox_bypass_domain_rule cg = listed "domain_suffix" cg.bypass_domains "direct"

abbrev pub rule_if : Bool → Object → List Object
rule_if true rule = rule ∷ []
rule_if false rule = []

-- the rules of `singboxRoute` without routing rules
unfoldable pub legacy_rules : GeoFiles → ConfigGenerator → List Object
legacy_rules geo cg =
    let geosite_tags =
      map (λ country. "geosite-" <> country) (with_geosite geo cg.geosite_countries) in
    let geoip_tags = map (λ country. "geoip-" <> country) cg.whitelist_countries in
    (sniff ∷ resolve_by "dns-direct" ∷ [])
    ++ (rule_if (has_any cg.force_proxy_domains)
          (listed "domain_suffix" cg.force_proxy_domains "proxy")
        ++ (local_rules cg.local_dns_rules
            ++ (rule_if (has_any cg.bypass_domains) (singbox_bypass_domain_rule cg)
                ++ ((private_direct ∷ [])
                    ++ (rule_if (has_any geosite_tags) (listed "rule_set" geosite_tags "direct")
                        ++ rule_if (has_any geoip_tags) (listed "rule_set" geoip_tags "direct"))))))

unfoldable pub legacy_rule_sets : GeoFiles → ConfigGenerator → List Object
legacy_rule_sets geo cg =
    singbox_geosite_rule_sets geo cg ++ map (local_rule_set geo "geoip-") cg.whitelist_countries

-- `singboxRoute`
unfoldable pub singbox_route : GeoFiles → ConfigGenerator → Object
singbox_route geo cg =
    if has_any cg.routing_rules
    then singbox_route_from_rules geo cg
    else route_section cg.gateway_mode (legacy_rules geo cg) (legacy_rule_sets geo cg) "proxy"
