-- ===== src/Tunnel/Chain/Linked.antt =====
-- How the outbounds of a chain name one another.
use bypath.Base.{
  ℕ, zero, suc, ◌+◌, String, string_eq, false, List, [], ◌∷◌, ◌++◌, ◌==◌, Option, none, some,
  length, get_elem?, ◌≡◌, refl, ap, ◌∙◌, arith,
}
use bypath.Profile.{Link}
use bypath.Tunnel.{ConfigGenerator}
use bypath.Tunnel.Json.{
  Object, Value, text, object, array, get, put, get-put, get-remove, list_of, list_of-objects_of,
  object_of,
}
use bypath.Tunnel.Outbound.{build_singbox_outbound}
use bypath.Tunnel.Outbound.Bare.{build_singbox_outbound-Bare}
use bypath.Tunnel.Chain.{
  hop_tag, hop, hops_from, build_chain_outbounds, generate_chain_config, direct_outbound,
}

-- the tag of the hop before a hop
abbrev pub previous : String → ℕ → Option Value
previous chain zero = none
previous chain (suc i) = some (text (hop_tag chain i))

-- the flow of the first hop alone
abbrev pub kept_flow : ℕ → Option Value → Option Value
kept_flow zero flow = flow
kept_flow (suc i) flow = none

-- An outbound as hop `i` of a chain, whose own outbound is `base`.
pub record IsHop (chain : String) (i : ℕ) (base m : Object) : Type 0 where
  tag : get "tag" m ≡ some (text (hop_tag chain i))
  detour : get "detour" m ≡ previous chain i
  flow : get "flow" m ≡ kept_flow i (get "flow" base)
  others :
      (key : String)
      → ("tag" == key) ≡ false
      → ("detour" == key) ≡ false
      → ("flow" == key) ≡ false
      → get key m ≡ get key base

-- The outbounds of a chain: one for each link, and the direct one.
abbrev pub IsChained : ConfigGenerator → String → List Link → List Object → Type 0
IsChained cg chain links outbounds =
    ((i : ℕ) (link : Link)
      → get_elem? links i ≡ some link
      → (m : Object) × (get_elem? outbounds i ≡ some m)
        × IsHop chain i (build_singbox_outbound cg link) m)
    × (get_elem? outbounds (length links) ≡ some direct_outbound)

-- The configuration sends all traffic to a tag: its route has no rules, and that final outbound.
pub record IsRouted (config : Object) (tag : String) : Type 0 where
  route : Object
  routed : get "route" config ≡ some (object route)
  no_rules : get "rules" route ≡ none
  final : get "final" route ≡ some (text tag)

-- `config["outbounds"]`
abbrev pub outbounds_of : Object → List Object
outbounds_of config = elim (get "outbounds" config) [ some (array ms) ↦ list_of ms | _ ↦ [] ]

pub data Exits (cg : ConfigGenerator) (chain : String)
    : List Link → Option (String × Object) → Type 0 where
  refused : Exits cg chain [] none
  exits :
      {first : Link} {links : List Link} (file : String) (config : Object)
      → outbounds_of config ≡ build_chain_outbounds cg chain (first ∷ links)
      → IsRouted config (hop_tag chain (length links))
      → (m : Object)
      → get_elem? (build_chain_outbounds cg chain (first ∷ links)) (length links) ≡ some m
      → get "tag" m ≡ some (text (hop_tag chain (length links)))
      → Exits cg chain (first ∷ links) (some (file, config))

last_of :
    (first : Link) (links : List Link)
    → (last : Link) × (get_elem? (first ∷ links) (length links) ≡ some last)
last_of first [] = (first, refl)
last_of first (next ∷ links) = last_of next links

module _ (cg : ConfigGenerator) (chain : String) where
  hop-IsHop :
      (i : ℕ) (link : Link) → IsHop chain i (build_singbox_outbound cg link) (hop cg chain i link)
  unfolding hop
  hop-IsHop zero link = record {
    tag = get-put "tag" "tag" _ _;
    detour = get-put "tag" "detour" _ _ ∙ (build_singbox_outbound-Bare cg link).1;
    flow = get-put "tag" "flow" _ _;
    others = λ key a b c.
        rw (get-put "tag" key (text (hop_tag chain zero)) (build_singbox_outbound cg link), a) refl;
  }
  hop-IsHop (suc i) link =
      let base = build_singbox_outbound cg link in
      let tagged = put "tag" (text (hop_tag chain (suc i))) base in
      let through = put "detour" (text (hop_tag chain i)) tagged in
      record {
        tag = get-remove "flow" "tag" _ ∙ get-put "detour" "tag" _ _ ∙ get-put "tag" "tag" _ _;
        detour = get-remove "flow" "detour" _ ∙ get-put "detour" "detour" _ _;
        flow = get-remove "flow" "flow" _;
        others = λ key a b c.
            rw (get-remove "flow" key through, c)
              (rw (get-put "detour" key (text (hop_tag chain i)) tagged, b)
                (rw (get-put "tag" key (text (hop_tag chain (suc i))) base, a) refl));
      }

  get_elem?-hops :
      (n i : ℕ) (links : List Link) (rest : List Object) {link : Link}
      → get_elem? links i ≡ some link
      → get_elem? (hops_from cg chain n links ++ rest) i ≡ some (hop cg chain (n + i) link)
  unfolding hops_from
  get_elem?-hops n i [] rest h = ground (arith, h)
  get_elem?-hops n zero (l ∷ links) rest {link} h =
      ap (λ o. elim o [ none ↦ none | some x ↦ some (hop cg chain n x) ]) h
      ∙ ap (λ k. some (hop cg chain k link)) (omega arith)
  get_elem?-hops n (suc i) (l ∷ links) rest {link} h =
      get_elem?-hops (suc n) i links rest h ∙ ap (λ k. some (hop cg chain k link)) (omega arith)

  direct_last :
      (n : ℕ) (links : List Link)
      → get_elem? (hops_from cg chain n links ++ (direct_outbound ∷ [])) (length links)
        ≡ some direct_outbound
  unfolding hops_from
  direct_last n [] = refl
  direct_last n (l ∷ links) = direct_last (suc n) links

  -- Outbound `i` of a chain is that of link `i`, tagged as hop `i`, dialled through hop `i - 1` and
  -- without a flow if it is not the first, and with every other field as the link alone has it. Behind
  -- the hops stands the direct outbound.
  pub build_chain_outbounds-IsHop :
      (links : List Link) → IsChained cg chain links (build_chain_outbounds cg chain links)
  unfolding build_chain_outbounds
  build_chain_outbounds-IsHop links = (
    λ i link h. (
      hop cg chain i link,
      get_elem?-hops 0 i links _ h ∙ ap (λ k. some (hop cg chain k link)) (omega arith),
      hop-IsHop i link,
    ),
    direct_last 0 links,
  )

  -- The outbounds of a chain's configuration are those of `buildChainOutbounds`; its route has no rules,
  -- and its final outbound is the tag of the last hop, which the outbound before the direct one bears.
  -- Without a link there is no configuration.
  pub generate_chain_config-Exits :
      (links : List Link) → Exits cg chain links (generate_chain_config cg chain links)
  unfolding generate_chain_config object_of get
  generate_chain_config-Exits [] = refused
  generate_chain_config-Exits (first ∷ links) =
      let (m, at_last, fits) =
        (build_chain_outbounds-IsHop (first ∷ links)).0 (length links) (last_of first links).0
          (last_of first links).1 in
      exits _ _ (list_of-objects_of _)
        (record { route = _; routed = refl; no_rules = refl; final = refl }) m at_last fits.tag
