-- ===== src/Tunnel/Route/Closed.antt =====
-- Which rule sets a route defines, and which ones its rules refer to.
use bypath.Base.{
  String, string_eq, true, Option, none, some, List, [], ◌∷◌, ◌++◌, select, any, ◌==◌, ◌≡◌, refl,
  sym, subst, inl, inr, Bool-cases, All, Some, All-append, All-map, Some-left, Some-right, eq_iff,
  arith,
}
use bypath.Tunnel.{ConfigGenerator, RoutingRule, LocalDnsRule}
use bypath.Tunnel.Json.{Object, text, get, object_of}
use bypath.Tunnel.Route.{
  GeoFiles, RouteState, tag_of, add_rule_set, route_step, route_steps, routed, local_rules, has_any,
}
use bypath.Tunnel.Route.Convert.{
  refers, Converted, skipped, plain, with_set, rule_from_matcher-Converted,
}

-- a rule set of the tag is defined
abbrev pub IsDefined : List Object → String → Type 0
IsDefined sets tag = Some (λ rs. get "tag" rs ≡ some (text tag)) sets

-- Each rule refers to defined rule sets alone.
abbrev pub Closed : List Object → List Object → Type 0
Closed sets rules = All (λ rule. All (IsDefined sets) (refers rule)) rules

more_sets :
    (sets more : List Object) (rules : List Object)
    → Closed sets rules
    → Closed (sets ++ more) rules
more_sets sets more rules h =
    All-map (λ rule. All-map (λ tag. Some-left _ sets more) (refers rule)) rules h

-- The invariant of the loop over the routing rules.
pub record IsClosed (st : RouteState) : Type 0 where
  pub closed : Closed st.rule_sets st.rules
  pub seen : All (IsDefined st.rule_sets) st.seen_rule_sets

tag_of-text : (rs : Object) (tag : String) → get "tag" rs ≡ some (text tag) → tag_of rs ≡ tag
tag_of-text rs tag e = rw (e, tag_of) refl

any-Defined :
    (sets : List Object) (tag : String) (seen : List String)
    → All (IsDefined sets) seen
    → any (λ t. t == tag) seen ≡ true
    → IsDefined sets tag
any-Defined sets tag [] h e = ground (arith, e)
any-Defined sets tag (t ∷ seen) (d, h) e = elim (Bool-cases (t == tag)) [
  | inl same ↦ subst (IsDefined sets) ((eq_iff t tag).0 same) d
  | inr other ↦ any-Defined sets tag seen h (rw other at e)
]

one_more :
    (sets rules : List Object) (rule : Object)
    → Closed sets rules
    → All (IsDefined sets) (refers rule)
    → Closed sets (rules ++ (rule ∷ []))
one_more sets rules rule h d =
    All-append (λ r. All (IsDefined sets) (refers r)) rules (rule ∷ []) h (d, tt)

abbrev with_rule : RouteState → Object → RouteState
with_rule st rule = record st { rules = st.rules ++ (rule ∷ []) }

set-IsClosed :
    (st : RouteState) (rs rule : Object) (tag : String)
    → get "tag" rs ≡ some (text tag)
    → refers rule ≡ tag ∷ []
    → IsClosed st
    → IsClosed (add_rule_set (some rs) (with_rule st rule))
unfolding add_rule_set
set-IsClosed st rs rule tag t e inv =
    elim (Bool-cases (any (λ t. t == tag_of rs) st.seen_rule_sets)) [
      | inl known ↦
          let defined =
            subst (IsDefined st.rule_sets) (tag_of-text rs tag t)
              (any-Defined st.rule_sets (tag_of rs) st.seen_rule_sets inv.seen known) in
          rw known (record {
            closed = one_more st.rule_sets st.rules rule inv.closed (rw e (defined, tt));
            seen = inv.seen;
          })
      | inr new ↦
          let sets = st.rule_sets ++ (rs ∷ []) in
          let defined : IsDefined sets tag =
            Some-right (λ x. get "tag" x ≡ some (text tag)) st.rule_sets (rs ∷ []) (inl t) in
          rw new (record {
            closed =
                one_more sets st.rules rule (more_sets st.rule_sets (rs ∷ []) st.rules inv.closed)
                  (rw e (defined, tt));
            seen = (
              subst (IsDefined sets) (sym (tag_of-text rs tag t)) defined,
              All-map (λ tag. Some-left _ st.rule_sets (rs ∷ [])) st.seen_rule_sets inv.seen,
            );
          })
    ]

Converted-IsClosed :
    (st : RouteState) {rs rule : Option Object}
    → Converted rs rule
    → IsClosed st
    → IsClosed (elim rule [ none ↦ st | some sb_rule ↦ add_rule_set rs (with_rule st sb_rule) ])
unfolding add_rule_set
Converted-IsClosed st skipped inv = inv
Converted-IsClosed st (plain {rule} e) inv = record {
  closed = one_more st.rule_sets st.rules rule inv.closed (rw e tt);
  seen = inv.seen;
}
Converted-IsClosed st (with_set {rs} {rule} tag t e) inv = set-IsClosed st rs rule tag t e inv

module _ (geo : GeoFiles) where
  step-IsClosed :
      (st : RouteState) (rule : RoutingRule) → IsClosed st → IsClosed (route_step geo st rule)
  unfolding route_step
  step-IsClosed st rule inv = elim (Bool-cases (rule.matcher == "default")) [
    | inl e ↦ rw e (record { closed = inv.closed; seen = inv.seen })
    | inr e ↦
        rw e
          (Converted-IsClosed st (rule_from_matcher-Converted geo rule.outbound rule.matcher) inv)
  ]

  steps-IsClosed :
      (st : RouteState) (rules : List RoutingRule)
      → IsClosed st
      → IsClosed (route_steps geo st rules)
  unfolding route_steps
  steps-IsClosed st [] inv = inv
  steps-IsClosed st (rule ∷ rules) inv =
      steps-IsClosed (route_step geo st rule) rules (step-IsClosed st rule inv)

  pub local_rules-Closed :
      (sets : List Object) (rules : List LocalDnsRule) → Closed sets (local_rules rules)
  unfolding local_rules select get object_of
  local_rules-Closed sets [] = tt
  local_rules-Closed sets (r ∷ rules) = elim (Bool-cases (has_any r.domains)) [
    | inl e ↦ rw e (tt, local_rules-Closed sets rules)
    | inr e ↦ rw e (local_rules-Closed sets rules)
  ]

  pub routed-IsClosed : (cg : ConfigGenerator) → IsClosed (routed geo cg)
  unfolding routed get object_of
  routed-IsClosed cg =
      steps-IsClosed _ cg.routing_rules
        (record { closed = (tt, (tt, (tt, local_rules-Closed [] cg.local_dns_rules))); seen = tt })
