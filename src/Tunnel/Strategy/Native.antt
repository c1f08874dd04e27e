-- ===== src/Tunnel/Strategy/Native.antt =====
-- Which chains `resolveChainStrategy` gives to one process, and what their outbounds dial.
use bypath.Base.{
  String, string_eq, Bool, true, false, not, ◌&&◌, ◌==◌, List, [], ◌∷◌, Option, none, some, ◌≡◌,
  ◌≢◌, refl, sym, ◌∙◌, ◌↔◌, ◌⊎◌, inl, inr, All, Bool-cases, Option-cases, eq_iff, arith, lookup,
  Dict,
}
use bypath.Profile.{Link, Group}
use bypath.Profile.Store.{Manager, get_link}
use bypath.Tunnel.{ConfigGenerator}
use bypath.Tunnel.Json.{Object, Value, text, put, put_if, get, get-put, switch, object_of}
use bypath.Tunnel.Outbound.{
  build_singbox_outbound, server_address, vmess_outbound, vless_outbound, trojan_outbound,
  shadowsocks_outbound, wireguard_outbound, socks5_outbound, http_outbound, with_transport,
  with_vless_tls,
}
use bypath.Tunnel.Strategy.{
  HopConfig, ChainStrategy, single_process, multi_process, is_compatible, hop_strategy,
  resolve_chain_strategy,
}

-- A hop that one sing-box can run: it asks for no other engine, and its link has a protocol that the
-- outbounds of sing-box have.
pub record IsNative (order : List Group) (profiles : Manager) (hop : HopConfig) : Type 0 where
  pub engine : (hop.engine ≡ "") ⊎ (hop.engine ≡ "sing-box")
  pub link : Link
  pub found : get_link order hop.profile profiles ≡ some link
  pub compatible : is_compatible link.protocol ≡ true

multi-ne-single : multi_process ≢ single_process
multi-ne-single e = ground (arith, e)

module _ (order : List Group) (profiles : Manager) where
  engine-cases :
      (engine : String)
      → ((not (engine == "") && not (engine == "sing-box")) ≡ true)
        ⊎ (((not (engine == "") && not (engine == "sing-box")) ≡ false)
            × ((engine ≡ "") ⊎ (engine ≡ "sing-box")))
  engine-cases engine = elim (Bool-cases (engine == "")) [
    | inl e ↦ inr (rw e refl, inl ((eq_iff engine "").0 e))
    | inr e ↦ elim (Bool-cases (engine == "sing-box")) [
      | inl f ↦ inr (rw (e, f) refl, inr ((eq_iff engine "sing-box").0 f))
      | inr f ↦ inl (rw (e, f) refl)
    ]
  ]

  hop_strategy-IsNative :
      (hop : HopConfig) (rest : ChainStrategy)
      → hop_strategy order profiles hop rest ≡ single_process
      → IsNative order profiles hop × (rest ≡ single_process)
  unfolding hop_strategy
  hop_strategy-IsNative hop rest h = elim (engine-cases hop.engine) [
    | inl other ↦ absurd (multi-ne-single (sym (rw (other, hop_strategy) refl) ∙ h))
    | inr (skip, own) ↦ elim (Option-cases (get_link order hop.profile profiles)) [
      | inl missing ↦ absurd (multi-ne-single (sym (rw (skip, hop_strategy) (rw missing refl)) ∙ h))
      | inr (link, found) ↦ elim (Bool-cases (is_compatible link.protocol)) [
        | inr foreign ↦
            absurd
              (multi-ne-single (sym (rw (skip, hop_strategy) (rw found (rw foreign refl))) ∙ h))
        | inl fits ↦ (
          record { engine = own; link = link; found = found; compatible = fits },
          sym (rw (skip, hop_strategy) (rw found (rw fits refl))) ∙ h,
        )
      ]
    ]
  ]

  skips :
      (engine : String)
      → ((engine ≡ "") ⊎ (engine ≡ "sing-box"))
      → (not (engine == "") && not (engine == "sing-box")) ≡ false
  skips engine (inl e) = rw e refl
  skips engine (inr e) = rw e refl

  IsNative-hop_strategy :
      (hop : HopConfig) (rest : ChainStrategy)
      → IsNative order profiles hop
      → hop_strategy order profiles hop rest ≡ rest
  unfolding hop_strategy
  IsNative-hop_strategy hop rest n =
      rw (skips hop.engine n.engine, hop_strategy) (rw n.found (rw n.compatible refl))

  -- A chain is run by one process exactly if each of its hops asks for no engine or for sing-box, has
  -- a profile that is found, and has a protocol of sing-box.
  pub resolve_chain_strategy_iff :
      (hops : List HopConfig)
      → (resolve_chain_strategy order profiles hops ≡ single_process)
        ↔ All (IsNative order profiles) hops
  unfolding resolve_chain_strategy
  resolve_chain_strategy_iff [] = (λ e. tt, λ u. refl)
  resolve_chain_strategy_iff (hop ∷ hops) = (
    λ e.
        let (native, rest) = hop_strategy-IsNative hop _ e in
        (native, (resolve_chain_strategy_iff hops).0 rest),
    λ (native, others).
        IsNative-hop_strategy hop _ native ∙ (resolve_chain_strategy_iff hops).1 others,
  )

abbrev flagged : Option Bool → Bool
flagged o = elim o [ none ↦ false | some b ↦ b ]

-- one case of a switch, and its entry of a table of flags
flagged_case :
    (P : Object → Type 0) (s name : String) (flags : Dict Bool) {m : Object}
    (cases : List (String × Object)) (default : Object)
    → P m
    → (flagged (lookup s flags) ≡ true → P (switch s cases default))
    → flagged (lookup s ((name, true) ∷ flags)) ≡ true
    → P (switch s ((name, m) ∷ cases) default)
unfolding lookup switch
flagged_case P s name flags cases default here there h = elim (Bool-cases (s == name)) [
  | inl e ↦ rw e here
  | inr e ↦
      let flipped : (name == s) ≡ false = ground (arith, e, eq_iff s name, eq_iff name s) in
      rw e (there (sym (rw (flipped, lookup) refl) ∙ h))
]

not_flagged : (s : String) → flagged (lookup s []) ≢ true
unfolding lookup
not_flagged s h = ground (arith, h)

abbrev pub Dials : String → Object → Type 0
Dials server m = get "server" m ≡ some (text server)

put-Dials :
    (server at : String) (new : Value) (m : Object)
    → (at == "server") ≡ false
    → Dials server m
    → Dials server (put at new m)
put-Dials server at new m other h = rw (get-put at "server" new m, other) h

put_if-Dials :
    (server : String) (b : Bool) (at : String) (new : Value) (m : Object)
    → (at == "server") ≡ false
    → Dials server m
    → Dials server (put_if b at new m)
unfolding put_if
put_if-Dials server true at new m other h = put-Dials server at new m other h
put_if-Dials server false at new m other h = h

module _ (cg : ConfigGenerator) (link : Link) where
  with_transport-Dials :
      (server host : String) (m : Object)
      → Dials server m
      → Dials server (with_transport link host m)
  unfolding with_transport
  with_transport-Dials server host m h = put_if-Dials server _ "transport" _ m refl h

  with_vless_tls-Dials :
      (server sni : String) (m : Object) → Dials server m → Dials server (with_vless_tls link sni m)
  unfolding with_vless_tls
  with_vless_tls-Dials server sni m h = elim (Bool-cases (link.security == "reality")) [
    | inl e ↦ rw e (put-Dials server "tls" _ m refl h)
    | inr e ↦ rw e (put_if-Dials server link.tls "tls" _ m refl h)
  ]

  abbrev DialsLink : Object → Type 0
  DialsLink = Dials (server_address cg link)

  vmess_outbound-Dials : DialsLink (vmess_outbound cg link)
  unfolding vmess_outbound object_of get
  vmess_outbound-Dials = put_if-Dials _ _ "tls" _ _ refl (with_transport-Dials _ _ _ refl)

  vless_outbound-Dials : DialsLink (vless_outbound cg link)
  unfolding vless_outbound object_of get
  vless_outbound-Dials =
      with_vless_tls-Dials _ _ _
        (with_transport-Dials _ _ _ (put_if-Dials _ _ "flow" _ _ refl refl))

  trojan_outbound-Dials : DialsLink (trojan_outbound cg link)
  unfolding trojan_outbound object_of get
  trojan_outbound-Dials = with_transport-Dials _ _ _ (put-Dials _ "tls" _ _ refl refl)

  plain_outbounds-Dials :
      DialsLink (shadowsocks_outbound cg link) × DialsLink (wireguard_outbound cg link)
  unfolding shadowsocks_outbound wireguard_outbound object_of get
  plain_outbounds-Dials = (refl, refl)

  socks5_outbound-Dials : DialsLink (socks5_outbound cg link)
  unfolding socks5_outbound object_of get
  socks5_outbound-Dials =
      put_if-Dials _ _ "password" _ _ refl (put_if-Dials _ _ "username" _ _ refl refl)

  http_outbound-Dials : DialsLink (http_outbound cg link)
  unfolding http_outbound object_of get
  http_outbound-Dials =
      put_if-Dials _ _ "tls" _ _ refl
        (put_if-Dials _ _ "password" _ _ refl (put_if-Dials _ _ "username" _ _ refl refl))

  build_singbox_outbound-Dials :
      is_compatible link.protocol ≡ true → DialsLink (build_singbox_outbound cg link)
  unfolding is_compatible build_singbox_outbound
  build_singbox_outbound-Dials =
      let (shadowsocks, wireguard) = plain_outbounds-Dials in
      flagged_case DialsLink link.protocol _ _ _ _ vmess_outbound-Dials (
        flagged_case DialsLink link.protocol _ _ _ _ vless_outbound-Dials (
          flagged_case DialsLink link.protocol _ _ _ _ trojan_outbound-Dials (
            flagged_case DialsLink link.protocol _ _ _ _ shadowsocks (
              flagged_case DialsLink link.protocol _ _ _ _ wireguard (
                flagged_case DialsLink link.protocol _ _ _ _ socks5_outbound-Dials (
                  flagged_case DialsLink link.protocol _ _ _ _ http_outbound-Dials
                    (λ h. absurd (not_flagged link.protocol h))))))))

-- The link of a hop is found, and its outbound dials the server of that link.
abbrev pub IsDialled : ConfigGenerator → List Group → Manager → HopConfig → Type 0
IsDialled cg order profiles hop =
    (link : Link) × (get_link order hop.profile profiles ≡ some link)
    × Dials (server_address cg link) (build_singbox_outbound cg link)

IsNative-IsDialled :
    (cg : ConfigGenerator) (order : List Group) (profiles : Manager) (hops : List HopConfig)
    → All (IsNative order profiles) hops
    → All (IsDialled cg order profiles) hops
IsNative-IsDialled cg order profiles [] h = tt
IsNative-IsDialled cg order profiles (hop ∷ hops) (n, rest) = (
  (n.link, n.found, build_singbox_outbound-Dials cg n.link n.compatible),
  IsNative-IsDialled cg order profiles hops rest,
)

-- In a chain that one process runs, each hop has a link that is found, and the outbound of that link
-- dials the address that is pinned for its server, or else the server itself.
pub resolve_chain_strategy-IsDialled :
    (cg : ConfigGenerator) (order : List Group) (profiles : Manager) (hops : List HopConfig)
    → resolve_chain_strategy order profiles hops ≡ single_process
    → All (IsDialled cg order profiles) hops
resolve_chain_strategy-IsDialled cg order profiles hops e =
    IsNative-IsDialled cg order profiles hops ((resolve_chain_strategy_iff order profiles hops).0 e)
