-- ===== src/Tunnel/Route/Order.antt =====
-- The rules of `singboxRouteFromRules` and their order.
use bypath.Base.{
  String, string_eq, Option, none, some, List, [], ◌∷◌, ◌++◌, ◌==◌, ◌≡◌, refl, sym, ap, ◌∙◌, inl,
  inr, any, if◌then◌else◌, Option-cases, Bool-cases, append_assoc, append-nil,
}
use bypath.Tunnel.{ConfigGenerator, RoutingRule}
use bypath.Tunnel.Json.{Object}
use bypath.Tunnel.Route.{
  GeoFiles, RouteState, tag_of, add_rule_set, route_step, route_steps, routed, rule_set_for_matcher,
  singbox_rule_from_matcher, local_rules, sniff, resolve_by, private_direct,
}

-- the rule that a routing rule is converted to, if there is one
unfoldable pub converted_rule : GeoFiles → RoutingRule → List Object
converted_rule geo rule =
    let converted : List Object = elim (singbox_rule_from_matcher geo rule.matcher rule.outbound) [
      | none ↦ []
      | some sb_rule ↦ sb_rule ∷ []
    ] in
    let nothing : List Object = [] in if rule.matcher == "default" then nothing else converted

unfoldable pub converted_rules : GeoFiles → List RoutingRule → List Object
converted_rules geo [] = []
converted_rules geo (rule ∷ rules) = converted_rule geo rule ++ converted_rules geo rules

abbrev pub final_after : String → RoutingRule → String
final_after final rule = if rule.matcher == "default" then rule.outbound else final

-- the outbound of the last rule for "default"
unfoldable pub last_default : String → List RoutingRule → String
last_default final [] = final
last_default final (rule ∷ rules) = last_default (final_after final rule) rules

add_rule_set-keeps :
    (rs : Option Object) (st : RouteState)
    → ((add_rule_set rs st).rules ≡ st.rules)
      × ((add_rule_set rs st).final_outbound ≡ st.final_outbound)
unfolding add_rule_set
add_rule_set-keeps none st = (refl, refl)
add_rule_set-keeps (some rs) st =
    elim (Bool-cases (any (λ tag. tag == tag_of rs) st.seen_rule_sets)) [
      | inl e ↦ rw e (refl, refl)
      | inr e ↦ rw e (refl, refl)
    ]

module _ (geo : GeoFiles) where
  route_step-Order :
      (st : RouteState) (rule : RoutingRule)
      → ((route_step geo st rule).rules ≡ st.rules ++ converted_rule geo rule)
        × ((route_step geo st rule).final_outbound ≡ final_after st.final_outbound rule)
  unfolding route_step converted_rule
  route_step-Order st rule = elim (Bool-cases (rule.matcher == "default")) [
    | inl e ↦ rw e (sym (append-nil st.rules), refl)
    | inr e ↦ rw e (elim (Option-cases (singbox_rule_from_matcher geo rule.matcher rule.outbound)) [
      | inl f ↦ rw f (sym (append-nil st.rules), refl)
      | inr (sb_rule, f) ↦ rw f (
          add_rule_set-keeps (rule_set_for_matcher geo rule.matcher)
            (record st { rules = st.rules ++ (sb_rule ∷ []) }))
    ])
  ]

  route_steps-Order :
      (st : RouteState) (rules : List RoutingRule)
      → ((route_steps geo st rules).rules ≡ st.rules ++ converted_rules geo rules)
        × ((route_steps geo st rules).final_outbound ≡ last_default st.final_outbound rules)
  unfolding route_steps converted_rules last_default
  route_steps-Order st [] = (sym (append-nil st.rules), refl)
  route_steps-Order st (rule ∷ rules) =
      let (listed, final) = route_steps-Order (route_step geo st rule) rules in
      let (one, set) = route_step-Order st rule in
      (
        listed
            ∙ ap (λ rs. rs ++ converted_rules geo rules) one
            ∙ append_assoc st.rules (converted_rule geo rule) (converted_rules geo rules),
        final ∙ ap (λ out. last_default out rules) set,
      )

  -- With routing rules, the route first sniffs, then resolves through the tunnel, then sends private
  -- addresses and the local domains direct; then it has the routing rules that can be converted, in
  -- their order; and it ends in the outbound of the last rule for "default", or in the proxy.
  pub routed-Order :
      (cg : ConfigGenerator)
      → ((routed geo cg).rules
          ≡ sniff ∷ resolve_by "dns-tunnel" ∷ private_direct ∷ local_rules cg.local_dns_rules
            ++ converted_rules geo cg.routing_rules)
        × ((routed geo cg).final_outbound ≡ last_default "proxy" cg.routing_rules)
  unfolding routed
  routed-Order cg = route_steps-Order _ cg.routing_rules
