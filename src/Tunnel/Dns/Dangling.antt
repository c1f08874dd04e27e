-- ===== src/Tunnel/Dns/Dangling.antt =====
-- The rules for local domains, which name servers that the DNS section lacks.
use Prim.Native.Char.{code}
use Prim.Native.String.{[], ◌∷◌, char_at}
use mathlib.Core.List.{[], ◌∷◌}
use package.text.Mathlib.TextLemmas.{append_cancel_left, append_assoc, cons-append}
use bypath.Base.{
  ◌∙◌, ℕ, suc, String, Bool, true, false, not, ◌&&◌, ◌||◌, Option, some, List, ◌≡◌, ◌≢◌, refl, sym,
  ap, inl, inr, subst, All, All-map, select, Some, Some-left, Bool-cases, any, arith, string_eq,
  ◌<>◌, format_nat,
}
use bypath.Profile.{Link}
use bypath.Tunnel.{ConfigGenerator, LocalDnsRule}
use bypath.Tunnel.Json.{Object, Value, text, texts, get, object_of, objects_at}
use bypath.Tunnel.Route.{GeoFiles, has_any}
use bypath.Tunnel.Dns.{
  singbox_dns, dns_rules, dns_section, local_dns_rules, local_tag, is_used, tunnel_server,
  direct_server, is_simple,
}
use bypath.Tunnel.Dns.Served.{section-lists}

-- A rule for the names that end in one of some domains, which names no defined server.
abbrev pub IsDangling : List Object → List String → Object → Type 0
IsDangling servers domains rule =
    (get "domain_suffix" rule ≡ some (texts domains))
    × (tag : String) × (get "server" rule ≡ some (text tag))
    × All (λ server. get "tag" server ≢ some (text tag)) servers

first_code : String → ℕ
first_code [] = 0
first_code (c ∷ s) = code c

-- A name that goes on after "dns-" with another letter than a local tag.
other_tag :
    (rest x : String) → (first_code rest ≡ b'l' → ⊥) → "dns-local-" <> x ≡ "dns-" <> rest → ⊥
unfolding first_code
other_tag rest x other e =
    let local : "local-" <> x ≡ rest =
      append_cancel_left "dns-" ("local-" <> x) rest (sym (append_assoc "dns-" "local-" x) ∙ e) in
    other (ap first_code (sym local) ∙ ap first_code (cons-append (char_at "l" 0) "ocal-" x))

local_tag-ne : (i : ℕ) → (local_tag i ≢ "dns-tunnel") × (local_tag i ≢ "dns-direct")
unfolding first_code
local_tag-ne i = (
  other_tag "tunnel" (format_nat i) (λ h. ground (arith, h)),
  other_tag "direct" (format_nat i) (λ h. ground (arith, h)),
)

text_of : Option Value → String
text_of (some (text s)) = s
text_of _ = ""

local-IsDangling :
    (cg : ConfigGenerator) (i : ℕ) (rules : List LocalDnsRule)
    → All
        (λ rule.
          Some
            (IsDangling (tunnel_server cg ∷ direct_server ∷ []) rule.domains)
            (local_dns_rules i rules))
        (select is_used rules)
unfolding local_dns_rules get object_of text_of select
local-IsDangling cg i [] = tt
local-IsDangling cg i (rule ∷ rules) = elim (Bool-cases (is_used rule)) [
  | inl e ↦ rw e (
    inl (
      refl,
      local_tag i,
      refl,
      (
        λ same. (local_tag-ne i).0 (sym (ap text_of same)),
        (λ same. (local_tag-ne i).1 (sym (ap text_of same)), tt),
      ),
    ),
    All-map
        (λ (x : LocalDnsRule)
            (h : Some (IsDangling (tunnel_server cg ∷ direct_server ∷ []) x.domains)
              (local_dns_rules (suc i) rules)).
          inr h)
        (select is_used rules) (local-IsDangling cg (suc i) rules),
  )
  | inr e ↦ rw e (local-IsDangling cg (suc i) rules)
]

not_simple : (cg : ConfigGenerator) → any is_used cg.local_dns_rules ≡ true → is_simple cg ≡ false
not_simple cg used = go cg.local_dns_rules used
  where
    go :
        (rules : List LocalDnsRule)
        → any is_used rules ≡ true
        → (not cg.gateway_mode
            && not (has_any cg.geosite_countries || has_any cg.whitelist_countries)
            && not (has_any cg.routing_rules)
            && not (has_any rules))
          ≡ false
    go [] h = ground (arith, h)
    go (rule ∷ rules) h = ground arith

module _ (is_ip : String → Bool) (geo : GeoFiles) (cg : ConfigGenerator) (link : Option Link) where
  dns_rules-IsDangling :
      All
        (λ rule.
          Some
            (IsDangling (tunnel_server cg ∷ direct_server ∷ []) rule.domains)
            (dns_rules is_ip geo cg link))
        (select is_used cg.local_dns_rules)
  unfolding dns_rules
  dns_rules-IsDangling =
      All-map
        (λ rule.
          Some-left (IsDangling (tunnel_server cg ∷ direct_server ∷ []) rule.domains)
            (local_dns_rules 0 cg.local_dns_rules) _)
        (select is_used cg.local_dns_rules) (local-IsDangling cg 0 cg.local_dns_rules)

  -- For each local DNS server that is used (it has an address and domains), the DNS section has a rule
  -- whose domain suffixes are that server's domains and whose server the section does not define.
  pub singbox_dns-IsDangling :
      any is_used cg.local_dns_rules ≡ true
      → let dns = singbox_dns is_ip geo cg link in
        All
          (λ rule.
            Some (IsDangling (objects_at "servers" dns) rule.domains) (objects_at "rules" dns))
          (select is_used cg.local_dns_rules)
  unfolding singbox_dns get object_of
  singbox_dns-IsDangling used =
      let rules = dns_rules is_ip geo cg link in
      let servers : List Object = tunnel_server cg ∷ direct_server ∷ [] in
      let (at_servers, (at_rules, at_final)) = section-lists servers "dns-tunnel" rules in
      let dns = dns_section servers "dns-tunnel" rules in
      rw (not_simple cg used) (
        subst
          (λ (ss : List Object).
            All
              (λ (rule : LocalDnsRule). Some (IsDangling ss rule.domains) (objects_at "rules" dns))
              (select is_used cg.local_dns_rules))
          (sym at_servers)
          (subst
            (λ (rs : List Object).
              All (λ (rule : LocalDnsRule). Some (IsDangling servers rule.domains) rs)
                (select is_used cg.local_dns_rules))
            (sym at_rules) dns_rules-IsDangling))
