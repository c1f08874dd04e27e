-- ===== src/Tunnel/Outbound/Bare.antt =====
-- What `BuildSingboxOutbound` leaves to its callers.
use bypath.Base.{String, string_eq, Bool, Bool-cases, false, [], ◌∷◌, ◌==◌, ◌≡◌, refl, inl, inr}
use bypath.Profile.{Link}
use bypath.Tunnel.{ConfigGenerator}
use bypath.Tunnel.Json.{
  Object, Value, text, put_if, Lacks, put_if-Lacks, put-Lacks, switch-case, switch-default,
  object_of-Lacks, get, object_of,
}
use bypath.Tunnel.Outbound.{
  build_singbox_outbound, vmess_outbound, vless_outbound, trojan_outbound, shadowsocks_outbound,
  wireguard_outbound, socks5_outbound, http_outbound, ssh_outbound, with_transport, with_vless_tls,
}

-- a key that no part of an outbound has
record Foreign (key : String) : Type 0 where
  transport : ("transport" == key) ≡ false
  tls : ("tls" == key) ≡ false
  flow : ("flow" == key) ≡ false
  username : ("username" == key) ≡ false
  password : ("password" == key) ≡ false

module _ {key : String} (foreign : Foreign key) (cg : ConfigGenerator) (link : Link) where
  with_transport-Lacks :
      (host : String) (m : Object) → Lacks key m → Lacks key (with_transport link host m)
  unfolding with_transport
  with_transport-Lacks host m h = put_if-Lacks key _ "transport" _ m foreign.transport h

  with_vless_tls-Lacks :
      (sni : String) (m : Object) → Lacks key m → Lacks key (with_vless_tls link sni m)
  unfolding with_vless_tls
  with_vless_tls-Lacks sni m h = elim (Bool-cases (link.security == "reality")) [
    | inl e ↦ rw e (put-Lacks key "tls" _ m foreign.tls h)
    | inr e ↦ rw e (put_if-Lacks key link.tls "tls" _ m foreign.tls h)
  ]

  login-Lacks :
      (b : Bool) (u p : Value) (m : Object)
      → Lacks key m
      → Lacks key (put_if b "password" p (put_if b "username" u m))
  login-Lacks b u p m h =
      put_if-Lacks key b "password" p _ foreign.password
        (put_if-Lacks key b "username" u m foreign.username h)

abbrev Bare : Object → Type 0
Bare m = Lacks "tag" m × Lacks "detour" m

Foreign-tag : Foreign "tag"
Foreign-tag = record { transport = refl; tls = refl; flow = refl; username = refl; password = refl }

Foreign-detour : Foreign "detour"
Foreign-detour = record {
  transport = refl;
  tls = refl;
  flow = refl;
  username = refl;
  password = refl;
}

module _ (cg : ConfigGenerator) (link : Link) where
  vmess_outbound-Bare : Bare (vmess_outbound cg link)
  unfolding vmess_outbound
  vmess_outbound-Bare = (
    put_if-Lacks "tag" _ _ _ _ refl
        (with_transport-Lacks Foreign-tag cg link _ _ (object_of-Lacks "tag" _ refl)),
    put_if-Lacks "detour" _ _ _ _ refl
        (with_transport-Lacks Foreign-detour cg link _ _ (object_of-Lacks "detour" _ refl)),
  )

  vless_outbound-Bare : Bare (vless_outbound cg link)
  unfolding vless_outbound
  vless_outbound-Bare = (
    with_vless_tls-Lacks Foreign-tag cg link _ _ (
        with_transport-Lacks Foreign-tag cg link _ _
          (put_if-Lacks "tag" _ _ _ _ refl (object_of-Lacks "tag" _ refl))),
    with_vless_tls-Lacks Foreign-detour cg link _ _ (
        with_transport-Lacks Foreign-detour cg link _ _
          (put_if-Lacks "detour" _ _ _ _ refl (object_of-Lacks "detour" _ refl))),
  )

  trojan_outbound-Bare : Bare (trojan_outbound cg link)
  unfolding trojan_outbound
  trojan_outbound-Bare = (
    with_transport-Lacks Foreign-tag cg link _ _
        (put-Lacks "tag" _ _ _ refl (object_of-Lacks "tag" _ refl)),
    with_transport-Lacks Foreign-detour cg link _ _
        (put-Lacks "detour" _ _ _ refl (object_of-Lacks "detour" _ refl)),
  )

  socks5_outbound-Bare : Bare (socks5_outbound cg link)
  unfolding socks5_outbound
  socks5_outbound-Bare = (
    login-Lacks Foreign-tag cg link _ _ _ _ (object_of-Lacks "tag" _ refl),
    login-Lacks Foreign-detour cg link _ _ _ _ (object_of-Lacks "detour" _ refl),
  )

  http_outbound-Bare : Bare (http_outbound cg link)
  unfolding http_outbound
  http_outbound-Bare = (
    put_if-Lacks "tag" _ _ _ _ refl
        (login-Lacks Foreign-tag cg link _ _ _ _ (object_of-Lacks "tag" _ refl)),
    put_if-Lacks "detour" _ _ _ _ refl
        (login-Lacks Foreign-detour cg link _ _ _ _ (object_of-Lacks "detour" _ refl)),
  )

  plain_outbounds-Bare :
      Bare (shadowsocks_outbound cg link)
      × Bare (wireguard_outbound cg link)
      × Bare (ssh_outbound cg link)
  unfolding shadowsocks_outbound wireguard_outbound ssh_outbound get object_of
  plain_outbounds-Bare = ((refl, refl), (refl, refl), (refl, refl))

  default-Bare : Bare (object_of (("type", text "direct") ∷ []))
  unfolding object_of get
  default-Bare = (refl, refl)

  -- The outbound of a link has no tag and no detour, whatever its protocol.
  pub build_singbox_outbound-Bare :
      Lacks "tag" (build_singbox_outbound cg link) × Lacks "detour" (build_singbox_outbound cg link)
  unfolding build_singbox_outbound
  build_singbox_outbound-Bare =
      let (shadowsocks, wireguard, ssh) = plain_outbounds-Bare in
      switch-case Bare link.protocol _ _ _ _ vmess_outbound-Bare (
        switch-case Bare link.protocol _ _ _ _ vless_outbound-Bare (
          switch-case Bare link.protocol _ _ _ _ trojan_outbound-Bare (
            switch-case Bare link.protocol _ _ _ _ shadowsocks (
              switch-case Bare link.protocol _ _ _ _ wireguard (
                switch-case Bare link.protocol _ _ _ _ socks5_outbound-Bare (
                  switch-case Bare link.protocol _ _ _ _ http_outbound-Bare (
                    switch-case Bare link.protocol _ _ _ _ ssh
                      (switch-default Bare link.protocol _ default-Bare))))))))
