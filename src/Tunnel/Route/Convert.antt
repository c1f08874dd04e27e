-- ===== src/Tunnel/Route/Convert.antt =====
-- What a routing rule is converted to, and the rule set that it needs.
use bypath.Base.{
  String, string_eq, Option, none, some, List, [], ◌∷◌, ◌==◌, ◌≡◌, refl, inl, inr, cut_first,
  Option-cases, Bool-cases, ◌<>◌,
}
use bypath.Tunnel.Json.{Object, text, get, put, object_of, texts_at, switch}
use bypath.Tunnel.Route.{
  GeoFiles, rule_set_by_type, rule_by_type, rule_set_for_matcher, singbox_rule_from_matcher,
  if_file, if_set, matching, srs,
}

-- The tags of the rule sets that a rule refers to.
abbrev pub refers : Object → List String
refers rule = texts_at "rule_set" rule

-- A rule set and a rule that come of one matcher.
pub data Converted : Option Object → Option Object → Type 0 where
  skipped : {rs : Option Object} → Converted rs none
  plain : {rule : Object} → refers rule ≡ [] → Converted none (some rule)
  with_set :
      {rs rule : Object} (tag : String)
      → get "tag" rs ≡ some (text tag)
      → refers rule ≡ tag ∷ []
      → Converted (some rs) (some rule)

geo_rule-Converted :
    (geo : GeoFiles) (prefix val outbound : String)
    → Converted
        (if_file geo prefix val)
        (if_set (if_file geo prefix val) (matching outbound "rule_set" (prefix <> val)))
unfolding get put object_of
geo_rule-Converted geo prefix val outbound =
    elim (Bool-cases (geo.has_file (geo.path (srs prefix val)))) [
      | inl e ↦ rw e (with_set (prefix <> val) refl refl)
      | inr e ↦ rw e skipped
    ]

module _ (geo : GeoFiles) (outbound : String) where
  by_type-Converted :
      (typ val : String)
      → Converted
          (rule_set_by_type geo typ val)
          (rule_by_type (rule_set_by_type geo typ val) typ val outbound)
  unfolding rule_set_by_type rule_by_type switch get put object_of
  by_type-Converted typ val = elim (Bool-cases (typ == "geoip")) [
    | inl e ↦ rw e (geo_rule-Converted geo "geoip-" val outbound)
    | inr e ↦ rw e (elim (Bool-cases (typ == "geosite")) [
      | inl f ↦ rw f (geo_rule-Converted geo "geosite-" val outbound)
      | inr f ↦ rw f (elim (Bool-cases (typ == "domain")) [
        | inl g ↦ rw g (plain refl)
        | inr g ↦ rw g (elim (Bool-cases (typ == "domain_suffix")) [
          | inl h ↦ rw h (plain refl)
          | inr h ↦ rw h (elim (Bool-cases (typ == "ip_cidr")) [
            | inl k ↦ rw k (plain refl)
            | inr k ↦ rw k skipped
          ])
        ])
      ])
    ])
  ]

  pub rule_from_matcher-Converted :
      (matcher : String)
      → Converted
          (rule_set_for_matcher geo matcher)
          (singbox_rule_from_matcher geo matcher outbound)
  unfolding rule_set_for_matcher singbox_rule_from_matcher
  rule_from_matcher-Converted matcher = elim (Option-cases (cut_first b':' matcher)) [
    | inl e ↦ rw (e, singbox_rule_from_matcher, rule_set_for_matcher) skipped
    | inr ((typ, val), e) ↦
        rw (e, singbox_rule_from_matcher) (rw (e, rule_set_for_matcher) (by_type-Converted typ val))
  ]
