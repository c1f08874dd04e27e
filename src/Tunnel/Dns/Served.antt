-- ===== src/Tunnel/Dns/Served.antt =====
-- The servers that the DNS section defines, and those that its rules name.
use bypath.Base.{
  ℕ, suc, String, Bool, true, false, not, ◌||◌, Option, some, List, [], ◌∷◌, ◌==◌, string_eq, ◌≡◌,
  refl, sym, inl, inr, subst, if◌then◌else◌, any, arith, All, All-append, Bool-cases, Option-cases,
  cut_first,
}
use bypath.Profile.{Link}
use bypath.Tunnel.{ConfigGenerator, RoutingRule, LocalDnsRule}
use bypath.Tunnel.Json.{
  Object, text, get, put, put_if, object_of, objects_at, list_of-objects_of, switch-case,
  switch-default,
}
use bypath.Tunnel.Route.{GeoFiles, has_any, rule_if, srs}
use bypath.Tunnel.Route.Closed.{IsDefined}
use bypath.Tunnel.Dns.{
  singbox_dns, dns_rules, dns_section, local_dns_rules, is_used, rules_of_direct, derived_rules,
  geosite_rule, proxy_rule, proxy_domains, tunnel_server, direct_server, is_simple, resolved_by,
}

-- A rule that names a defined server.
abbrev pub IsServed : List Object → Object → Type 0
IsServed servers rule =
    (tag : String) × (get "server" rule ≡ some (text tag)) × IsDefined servers tag

pub section-lists :
    (servers : List Object) (final : String) (rules : List Object)
    → (objects_at "servers" (dns_section servers final rules) ≡ servers)
      × ((objects_at "rules" (dns_section servers final rules) ≡ rules)
          × (get "final" (dns_section servers final rules) ≡ some (text final)))
unfolding get put put_if object_of
section-lists servers final [] = (list_of-objects_of servers, (refl, refl))
section-lists servers final (r ∷ rules) =
    (list_of-objects_of servers, (list_of-objects_of (r ∷ rules), refl))

module _ (servers : List Object) where
  rule_if-Served :
      (b : Bool) (rule : Object) → IsServed servers rule → All (IsServed servers) (rule_if b rule)
  rule_if-Served true rule h = (h, tt)
  rule_if-Served false rule h = tt

  module _ (direct : IsDefined servers "dns-direct") where
    direct-Served :
        (b : Bool) (key : String) (names : List String)
        → (key == "server") ≡ false
        → All (IsServed servers) (rule_if b (resolved_by "dns-direct" key names))
    unfolding get object_of
    direct-Served b key names other = rule_if-Served b _ ("dns-direct", rw other refl, direct)

    rules_of_direct-Served :
        (geo : GeoFiles) (rule : RoutingRule) → All (IsServed servers) (rules_of_direct geo rule)
    unfolding rules_of_direct
    rules_of_direct-Served geo rule =
        elim (Bool-cases (not (rule.outbound == "direct") || rule.matcher == "default")) [
          | inl e ↦ rw e tt
          | inr e ↦ rw e (elim (Option-cases (cut_first b':' rule.matcher)) [
            | inl f ↦ rw f tt
            | inr ((typ, val), f) ↦
                let P = All (IsServed servers) in
                rw f (
                  switch-case P typ _ _ _ _
                    (direct-Served (geo.has_file (geo.path (srs "geosite-" val))) "rule_set" _ refl)
                    (switch-case P typ _ _ _ _ (direct-Served true "rule_set" _ refl) (
                      switch-case P typ _ _ _ _ (direct-Served true "domain_suffix" _ refl) (
                        switch-case P typ _ _ _ _ (direct-Served true "domain" _ refl)
                          (switch-default P typ _ tt)))))
          ])
        ]

    derived_rules-Served :
        (geo : GeoFiles) (rules : List RoutingRule)
        → All (IsServed servers) (derived_rules geo rules)
    unfolding derived_rules
    derived_rules-Served geo [] = tt
    derived_rules-Served geo (rule ∷ rules) =
        All-append (IsServed servers) (rules_of_direct geo rule) (derived_rules geo rules)
          (rules_of_direct-Served geo rule) (derived_rules-Served geo rules)

    by_mode-Served :
        (geo : GeoFiles) (cg : ConfigGenerator) (b : Bool)
        → All
            (IsServed servers)
            (if b then derived_rules geo cg.routing_rules else geosite_rule geo cg)
    by_mode-Served geo cg true = derived_rules-Served geo cg.routing_rules
    by_mode-Served geo cg false = direct-Served _ "rule_set" _ refl

-- There are no rules for local domains, if no local server is used.
no_local_rules :
    (i : ℕ) (rules : List LocalDnsRule) → any is_used rules ≡ false → local_dns_rules i rules ≡ []
unfolding local_dns_rules
no_local_rules i [] h = refl
no_local_rules i (rule ∷ rules) h = elim (Bool-cases (is_used rule)) [
  | inl e ↦ ground (arith, rw e at h)
  | inr e ↦ rw e (no_local_rules (suc i) rules (rw e at h))
]

-- A section of which the rules and the default name its servers.
abbrev pub IsWhole : Object → Type 0
IsWhole dns =
    All (IsServed (objects_at "servers" dns)) (objects_at "rules" dns)
    × ((tag : String) × (get "final" dns ≡ some (text tag))
        × IsDefined (objects_at "servers" dns) tag)

of_lists :
    (servers : List Object) (final : String) (rules : List Object)
    → All (IsServed servers) rules
    → IsDefined servers final
    → IsWhole (dns_section servers final rules)
of_lists servers final rules served known =
    let (at_servers, (at_rules, at_final)) = section-lists servers final rules in
    let dns = dns_section servers final rules in
    (
      subst (λ ss. All (IsServed ss) (objects_at "rules" dns)) (sym at_servers)
          (subst (All (IsServed servers)) (sym at_rules) served),
      (final, at_final, subst (λ ss. IsDefined ss final) (sym at_servers) known),
    )

module _ (is_ip : String → Bool) (geo : GeoFiles) (cg : ConfigGenerator) (link : Option Link) where
  dns_rules-Served :
      any is_used cg.local_dns_rules ≡ false
      → All (IsServed (tunnel_server cg ∷ direct_server ∷ [])) (dns_rules is_ip geo cg link)
  unfolding dns_rules get object_of
  dns_rules-Served unused =
      let servers : List Object = tunnel_server cg ∷ direct_server ∷ [] in
      let by_mode =
        if has_any cg.routing_rules
        then derived_rules geo cg.routing_rules
        else geosite_rule geo cg in
      let direct : IsDefined servers "dns-direct" = inr (inl refl) in
      rw (no_local_rules 0 cg.local_dns_rules unused) (
        All-append (IsServed servers) (proxy_rule is_ip link) by_mode
          (direct-Served servers direct (has_any (proxy_domains is_ip link)) "domain"
            (proxy_domains is_ip link) refl)
          (by_mode-Served servers direct geo cg (has_any cg.routing_rules)))

  -- Where no local DNS server is used, each rule of the DNS section names a server that the section
  -- defines, and so does its default.
  pub singbox_dns-Served :
      any is_used cg.local_dns_rules ≡ false → IsWhole (singbox_dns is_ip geo cg link)
  unfolding singbox_dns get object_of
  singbox_dns-Served unused = elim (Bool-cases (is_simple cg)) [
    | inl e ↦ rw e (of_lists (direct_server ∷ []) "dns-direct" [] tt (inl refl))
    | inr e ↦ rw e (
        of_lists (tunnel_server cg ∷ direct_server ∷ []) "dns-tunnel" (dns_rules is_ip geo cg link)
          (dns_rules-Served unused) (inl refl))
  ]
