-- ===== src/Tunnel/Xray/Order.antt =====
-- The rules of `xrayRouteFromRules` and their order.
use bypath.Base.{
  String, string_eq, Bool, none, some, List, [], ◌∷◌, ◌++◌, ◌==◌, ◌≡◌, refl, sym, ap, ◌∙◌, inl, inr,
  if◌then◌else◌, Option-cases, Bool-cases, append_assoc, append-nil,
}
use bypath.Tunnel.{ConfigGenerator, RoutingRule}
use bypath.Tunnel.Json.{Object}
use bypath.Tunnel.Route.Order.{final_after, last_default}
use bypath.Tunnel.Xray.{
  xray_steps, xray_rules, xray_rule_from_matcher, xray_local_rules, private_rule, catch_all,
}

-- the rule that a routing rule is converted to, if there is one
unfoldable pub xray_converted : Bool → RoutingRule → List Object
xray_converted geosite rule =
    let converted : List Object = elim (xray_rule_from_matcher geosite rule.matcher rule.outbound) [
      | none ↦ []
      | some xray_rule ↦ xray_rule ∷ []
    ] in
    let nothing : List Object = [] in if rule.matcher == "default" then nothing else converted

unfoldable pub xray_all_converted : Bool → List RoutingRule → List Object
xray_all_converted geosite [] = []
xray_all_converted geosite (rule ∷ rules) =
    xray_converted geosite rule ++ xray_all_converted geosite rules

module _ (geosite : Bool) where
  added-converted :
      (rules : List Object) (rule : RoutingRule)
      → (if rule.matcher == "default"
          then rules
          else elim (xray_rule_from_matcher geosite rule.matcher rule.outbound) [
            | none ↦ rules
            | some xray_rule ↦ rules ++ (xray_rule ∷ [])
          ])
        ≡ rules ++ xray_converted geosite rule
  unfolding xray_converted
  added-converted rules rule = elim (Bool-cases (rule.matcher == "default")) [
    | inl e ↦ rw e (sym (append-nil rules))
    | inr e ↦
        rw e (elim (Option-cases (xray_rule_from_matcher geosite rule.matcher rule.outbound)) [
          | inl f ↦ rw f (sym (append-nil rules))
          | inr (xray_rule, f) ↦ rw f refl
        ])
  ]

  xray_steps-Order :
      (rest : List RoutingRule) (rules : List Object) (final : String)
      → xray_steps geosite (rules, final) rest
        ≡ (rules ++ xray_all_converted geosite rest, last_default final rest)
  unfolding xray_steps xray_all_converted last_default
  xray_steps-Order [] rules final = ap (λ rs. (rs, final)) (sym (append-nil rules))
  xray_steps-Order (rule ∷ rest) rules final =
      xray_steps-Order rest _ (final_after final rule)
      ∙ ap
          (λ rs.
            (rs ++ xray_all_converted geosite rest, last_default (final_after final rule) rest))
          (added-converted rules rule)
      ∙ ap (λ rs. (rs, last_default (final_after final rule) rest))
          (append_assoc rules (xray_converted geosite rule) (xray_all_converted geosite rest))

  -- With routing rules, xray sends private addresses and local domains direct first; then come the
  -- routing rules that can be converted, in their order; and last a rule for all that is left, to the
  -- outbound of the last rule for "default" or to the proxy.
  xray_rules-Order :
      (cg : ConfigGenerator)
      → xray_rules geosite cg
        ≡ ((private_rule ∷ xray_local_rules cg.local_dns_rules)
            ++ xray_all_converted geosite cg.routing_rules)
          ++ (catch_all (last_default "proxy" cg.routing_rules) ∷ [])
  unfolding xray_rules
  xray_rules-Order cg =
      ap (λ (s : List Object × String). s.0 ++ (catch_all s.1 ∷ []))
        (xray_steps-Order cg.routing_rules (private_rule ∷ xray_local_rules cg.local_dns_rules)
          "proxy")
