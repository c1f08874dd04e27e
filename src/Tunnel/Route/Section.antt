-- ===== src/Tunnel/Route/Section.antt =====
-- The rule sets of the whole route section, with and without routing rules.
use bypath.Base.{
  String, Bool, true, false, List, [], ◌∷◌, ◌++◌, map, ◌<>◌, ◌≡◌, refl, sym, inl, inr, subst, All,
  All-append, All-map, Some-left, Some-right, Bool-cases,
}
use bypath.Tunnel.{ConfigGenerator}
use bypath.Tunnel.Json.{Object, get, put, put_if, object_of, objects_at, list_of-objects_of}
use bypath.Tunnel.Route.{
  GeoFiles, routed, route_section, singbox_route, singbox_route_from_rules, legacy_rules,
  legacy_rule_sets, has_any, local_rule_set, with_geosite, singbox_geosite_rule_sets,
  singbox_bypass_domain_rule, rule_if, listed, local_rules, private_direct,
}
use bypath.Tunnel.Route.Convert.{refers}
use bypath.Tunnel.Route.Closed.{IsDefined, Closed, local_rules-Closed, routed-IsClosed}

section-rules :
    (gateway : Bool) (rules sets : List Object) (final : String)
    → objects_at "rules" (route_section gateway rules sets final) ≡ rules
unfolding get put put_if object_of
section-rules true rules [] final = list_of-objects_of rules
section-rules false rules [] final = list_of-objects_of rules
section-rules true rules (s ∷ sets) final = list_of-objects_of rules
section-rules false rules (s ∷ sets) final = list_of-objects_of rules

section-sets :
    (gateway : Bool) (rules sets : List Object) (final : String)
    → objects_at "rule_set" (route_section gateway rules sets final) ≡ sets
unfolding get put put_if object_of
section-sets true rules [] final = refl
section-sets false rules [] final = refl
section-sets true rules (s ∷ sets) final = list_of-objects_of (s ∷ sets)
section-sets false rules (s ∷ sets) final = list_of-objects_of (s ∷ sets)

section-Closed :
    (gateway : Bool) (rules sets : List Object) (final : String)
    → Closed sets rules
    → let route = route_section gateway rules sets final in
      Closed (objects_at "rule_set" route) (objects_at "rules" route)
section-Closed gateway rules sets final h =
    subst (λ ss. Closed ss (objects_at "rules" (route_section gateway rules sets final)))
      (sym (section-sets gateway rules sets final))
      (subst (Closed sets) (sym (section-rules gateway rules sets final)) h)

module _ (geo : GeoFiles) where
  tags-Defined :
      (prefix : String) (names : List String)
      → All (IsDefined (map (local_rule_set geo prefix) names)) (map (λ name. prefix <> name) names)
  unfolding get object_of
  tags-Defined prefix [] = tt
  tags-Defined prefix (name ∷ names) = (
    inl refl,
    All-map (λ tag d. inr d) (map (λ name. prefix <> name) names) (tags-Defined prefix names),
  )

  rule_if-Closed :
      (sets : List Object) (b : Bool) (rule : Object)
      → All (IsDefined sets) (refers rule)
      → Closed sets (rule_if b rule)
  rule_if-Closed sets true rule h = (h, tt)
  rule_if-Closed sets false rule h = tt

  legacy-Closed : (cg : ConfigGenerator) → Closed (legacy_rule_sets geo cg) (legacy_rules geo cg)
  unfolding legacy_rule_sets legacy_rules singbox_geosite_rule_sets singbox_bypass_domain_rule get
      object_of
  legacy-Closed cg =
      let geosites = map (local_rule_set geo "geosite-") (with_geosite geo cg.geosite_countries) in
      let geoips = map (local_rule_set geo "geoip-") cg.whitelist_countries in
      let sets = geosites ++ geoips in
      let P = λ (rule : Object). All (IsDefined sets) (refers rule) in
      let geosite_tags =
        map (λ country. "geosite-" <> country) (with_geosite geo cg.geosite_countries) in
      let geoip_tags = map (λ country. "geoip-" <> country) cg.whitelist_countries in
      let by_geosite = rule_if (has_any geosite_tags) (listed "rule_set" geosite_tags "direct") in
      let by_geoip = rule_if (has_any geoip_tags) (listed "rule_set" geoip_tags "direct") in
      let bypassed =
        rule_if (has_any cg.bypass_domains) (listed "domain_suffix" cg.bypass_domains "direct") in
      let forced =
        rule_if (has_any cg.force_proxy_domains)
          (listed "domain_suffix" cg.force_proxy_domains "proxy") in
      let later = (private_direct ∷ []) ++ (by_geosite ++ by_geoip) in
      let geosite_closed =
        rule_if-Closed sets (has_any geosite_tags) (listed "rule_set" geosite_tags "direct") (
          All-map (λ tag. Some-left _ geosites geoips) geosite_tags
            (tags-Defined "geosite-" (with_geosite geo cg.geosite_countries))) in
      let geoip_closed =
        rule_if-Closed sets (has_any geoip_tags) (listed "rule_set" geoip_tags "direct") (
          All-map (λ tag. Some-right _ geosites geoips) geoip_tags
            (tags-Defined "geoip-" cg.whitelist_countries)) in
      let later_closed : Closed sets later =
        (tt, All-append P by_geosite by_geoip geosite_closed geoip_closed) in
      (
        tt,
        (
          tt,
          All-append P forced (local_rules cg.local_dns_rules ++ (bypassed ++ later))
              (rule_if-Closed sets (has_any cg.force_proxy_domains) _ tt)
              (All-append P (local_rules cg.local_dns_rules) (bypassed ++ later)
                (local_rules-Closed geo sets cg.local_dns_rules)
                (All-append P bypassed later (rule_if-Closed sets (has_any cg.bypass_domains) _ tt)
                  later_closed)),
        ),
      )

  -- Every rule set that a rule of the route section refers to is defined in that section, with
  -- routing rules and without, whatever files of geographic data there are.
  pub singbox_route-Closed :
      (cg : ConfigGenerator)
      → let route = singbox_route geo cg in
        Closed (objects_at "rule_set" route) (objects_at "rules" route)
  unfolding singbox_route singbox_route_from_rules
  singbox_route-Closed cg = elim (Bool-cases (has_any cg.routing_rules)) [
    | inl e ↦ rw e (
        section-Closed cg.gateway_mode (routed geo cg).rules (routed geo cg).rule_sets
          (routed geo cg).final_outbound (routed-IsClosed geo cg).closed)
    | inr e ↦ rw e (
        section-Closed cg.gateway_mode (legacy_rules geo cg) (legacy_rule_sets geo cg) "proxy"
          (legacy-Closed cg))
  ]
