-- ===== src/Tunnel/Singbox/Dialled.antt =====
-- How the outbounds of one link name one another.
use bypath.Base.{
  String, string_eq, Option, none, some, List, [], ◌∷◌, ◌≡◌, ◌∙◌, refl, inl, inr, ◌⊎◌, ◌==◌, All,
  All-map, Bool-cases, Option-cases, Dict, atoi,
}
use bypath.Profile.{Link}
use bypath.Profile.Parser.Interface.{User}
use bypath.Tunnel.{ConfigGenerator}
use bypath.Tunnel.Json.{
  Object, text, number, get, put, object_of, get-put, Lacks, put-Lacks, object_of-Lacks,
  switch-case, switch-default,
}
use bypath.Tunnel.Outbound.{build_singbox_outbound}
use bypath.Tunnel.Outbound.Bare.{build_singbox_outbound-Bare}
use bypath.Tunnel.Route.Closed.{IsDefined}
use bypath.Tunnel.Singbox.{
  World, singbox_outbounds, singbox_external_outbounds, parse_singbox_external_outbound, parsed,
  login_of, sorted_by_name, chain_outbound, direct_outbound,
}

-- An outbound that dials directly, or through an outbound that there is.
abbrev pub Dials : List Object → Object → Type 0
Dials outbounds m =
    Lacks "detour" m
    ⊎ ((tag : String) × (get "detour" m ≡ some (text tag)) × IsDefined outbounds tag)

abbrev Plain : Option Object → Type 0
Plain none = Unit
Plain (some m) = Lacks "detour" m

parsed-Plain :
    (parse : String → String → Option Object)
    → ((name url : String) → Plain (parse name url))
    → (entries : Dict String) → All (Lacks "detour") (parsed parse entries)
parsed-Plain parse h [] = tt
parsed-Plain parse h ((name, url) ∷ rest) =
    go (parse name url) (h name url) (parsed-Plain parse h rest)
  where
    go :
        (o : Option Object)
        → Plain o
        → All (Lacks "detour") (parsed parse rest)
        → All
            (Lacks "detour")
            (elim o [ none ↦ parsed parse rest | some ob ↦ ob ∷ parsed parse rest ])
    go none p later = later
    go (some ob) p later = (p, later)

login-Lacks :
    (user : Option User) (m : Object) → Lacks "detour" m → Lacks "detour" (login_of user m)
login-Lacks none m h = h
login-Lacks (some who) m h = go who.secret
  where
    go :
        (secret : Option String)
        → Lacks "detour" (elim secret [
          | none ↦ put "username" (text who.name) m
          | some s ↦ put "password" (text s) (put "username" (text who.name) m)
        ])
    go none = put-Lacks "detour" "username" _ m refl h
    go (some s) = put-Lacks "detour" "password" _ _ refl (put-Lacks "detour" "username" _ m refl h)

module _ (world : World) where
  external-Plain : (tag url : String) → Plain (parse_singbox_external_outbound world tag url)
  unfolding parse_singbox_external_outbound
  external-Plain tag url = elim (Option-cases (world.parse_address url)) [
    | inl e ↦ rw (e, parse_singbox_external_outbound) tt
    | inr (u, e) ↦ elim (Option-cases u.host_port) [
      | inl f ↦ rw (e, parse_singbox_external_outbound) (rw f tt)
      | inr ((host, port), f) ↦
          let base = object_of (
            ("tag", text tag) ∷ ("server", text host) ∷ ("server_port", number (atoi port)) ∷ []) in
          let ob = login_of u.user base in
          let bare : Lacks "detour" ob =
            login-Lacks u.user base (object_of-Lacks "detour" _ refl) in
          let typed : (kind : String) → Lacks "detour" (put "type" (text kind) ob) =
            λ kind. put-Lacks "detour" "type" (text kind) ob refl bare in
          let socks : (version : String)
              → Lacks "detour" (put "version" (text version) (put "type" (text "socks") ob)) =
            λ version. put-Lacks "detour" "version" (text version) _ refl (typed "socks") in
          rw (e, parse_singbox_external_outbound)
            (rw f (
              switch-case Plain u.scheme _ _ _ _ (socks "5") (
                switch-case Plain u.scheme _ _ _ _ (socks "5") (
                  switch-case Plain u.scheme _ _ _ _ (socks "4") (
                    switch-case Plain u.scheme _ _ _ _ (typed "http") (
                      switch-case Plain u.scheme _ _ _ _
                        (put-Lacks "detour" "tls" _ _ refl (typed "http"))
                        (switch-default Plain u.scheme none tt)))))))
    ]
  ]

  externals-Plain :
      (cg : ConfigGenerator) → All (Lacks "detour") (singbox_external_outbounds world cg)
  unfolding singbox_external_outbounds
  externals-Plain cg =
      parsed-Plain (parse_singbox_external_outbound world) external-Plain
        (sorted_by_name cg.external_outbounds)

  abbrev own : ConfigGenerator → Link → Object
  own cg link = put "tag" (text "proxy") (build_singbox_outbound cg link)

  own-Lacks : (cg : ConfigGenerator) (link : Link) → Lacks "detour" (own cg link)
  own-Lacks cg link = put-Lacks "detour" "tag" _ _ refl (build_singbox_outbound-Bare cg link).1

  literals-Lack :
      (link : Link) → Lacks "detour" (chain_outbound link) × Lacks "detour" direct_outbound
  unfolding get object_of
  literals-Lack link = (refl, refl)

  literals-tagged :
      (link : Link)
      → (get "tag" (chain_outbound link) ≡ some (text "chain-out"))
        × (get "tag" direct_outbound ≡ some (text "direct"))
  unfolding get object_of
  literals-tagged link = (refl, refl)

  -- An outbound list that is whole: it has the outbounds that routes go to, and each one dials
  -- directly or through an outbound of the list.
  abbrev pub IsWhole : List Object → Type 0
  IsWhole outbounds =
      All (Dials outbounds) outbounds × IsDefined outbounds "proxy" × IsDefined outbounds "direct"

  -- The outbounds of a link have one tagged "proxy" and one tagged "direct", and an outbound that
  -- dials through another one names an outbound of the list.
  pub singbox_outbounds-IsWhole :
      (cg : ConfigGenerator) (link : Link) → IsWhole (singbox_outbounds world cg link)
  unfolding singbox_outbounds
  singbox_outbounds-IsWhole cg link =
      let externals = singbox_external_outbounds world cg in
      let (chain_direct, direct_direct) = literals-Lack link in
      let (chain_tag, direct_tag) = literals-tagged link in
      let alone : List Object = own cg link ∷ direct_outbound ∷ externals in
      let dialled = put "detour" (text "chain-out") (own cg link) in
      let chained : List Object = dialled ∷ chain_outbound link ∷ direct_outbound ∷ externals in
      elim (Bool-cases (link.chain_proxy == "")) [
        | inl e ↦ rw e (
          (
            inl (own-Lacks cg link),
            (inl direct_direct, All-map (λ m h. inl h) externals (externals-Plain cg)),
          ),
          inl (get-put "tag" "tag" _ _),
          inr (inl direct_tag),
        )
        | inr e ↦ rw e (
          (
            inr ("chain-out", get-put "detour" "detour" _ _, inr (inl chain_tag)),
            (
              inl chain_direct,
              (inl direct_direct, All-map (λ m h. inl h) externals (externals-Plain cg)),
            ),
          ),
          inl (get-put "detour" "tag" _ _ ∙ get-put "tag" "tag" _ _),
          inr (inr (inl direct_tag)),
        )
      ]
