-- ===== src/Tunnel/Singbox.antt =====
-- The sing-box configuration of one link: `generateSingBox` of internal/tunnel/configgen.go.
pub mod Dialled
use Prim.Native.Nat.{Ordering}
use Prim.Native.String.{compare}
use bypath.Base.{
  ℤ, pos, int_eq, String, string_eq, Bool, true, not, ◌&&◌, ◌||◌, Option, none, some, List, [], ◌∷◌,
  Dict, if◌then◌else◌, ◌==◌, atoi,
}
use bypath.Profile.{Link}
use bypath.Profile.Parser.Interface.{User}
use bypath.Tunnel.{ConfigGenerator}
use bypath.Tunnel.Json.{
  Object, text, number, flag, texts, object, put, put_if, object_of, array_of, switch,
}
use bypath.Tunnel.Names.{extract_port}
use bypath.Tunnel.Outbound.{build_singbox_outbound}
use bypath.Tunnel.Route.{GeoFiles, has_any, singbox_route}
use bypath.Tunnel.Dns.{singbox_dns}

-- What `url.Parse` and `net.SplitHostPort` find in the address of an external outbound.
pub record Address : Type 0 where
  pub scheme : String
  pub user : Option User
  pub host_port : Option (String × String)

-- Go's functions on addresses, and the folder of geographic data.
pub record World : Type 0 where
  pub parse_address : String → Option Address
  pub is_ip : String → Bool
  pub geo : GeoFiles

-- one more name, in the order of `sort.Strings`
unfoldable pub insert_sorted : String → String → Dict String → Dict String
insert_sorted name url [] = (name, url) ∷ []
insert_sorted name url ((other, u) ∷ rest) =
    let later = insert_sorted name url rest in
    elim (compare name other) [
      | Ordering.gt ↦ (other, u) ∷ later
      | _ ↦ (name, url) ∷ (other, u) ∷ rest
    ]

-- the external outbounds in the order of their names
unfoldable pub sorted_by_name : Dict String → Dict String
sorted_by_name [] = []
sorted_by_name ((name, url) ∷ rest) = insert_sorted name url (sorted_by_name rest)

abbrev pub login_of : Option User → Object → Object
login_of none ob = ob
login_of (some who) ob =
    let named = put "username" (text who.name) ob in
    elim who.secret [ none ↦ named | some secret ↦ put "password" (text secret) named ]

abbrev socks : String → Object → Option Object
socks version ob = some (put "version" (text version) (put "type" (text "socks") ob))

abbrev http : Object → Object
http ob = put "type" (text "http") ob

-- `parseSingboxExternalOutbound`
unfoldable pub parse_singbox_external_outbound : World → String → String → Option Object
parse_singbox_external_outbound world tag raw_url = elim (world.parse_address raw_url) [
  | none ↦ none
  | some u ↦ elim u.host_port [
    | none ↦ none
    | some (host, port) ↦
        let ob = login_of u.user (
          object_of (
            ("tag", text tag)
            ∷ ("server", text host)
            ∷ ("server_port", number (atoi port))
            ∷ [])) in
        switch u.scheme
          (("socks5", socks "5" ob)
            ∷ ("socks5h", socks "5" ob)
            ∷ ("socks4", socks "4" ob)
            ∷ ("http", some (http ob))
            ∷ (
              "https",
              some (put "tls" (object (object_of (("enabled", flag true) ∷ []))) (http ob)),
            )
            ∷ [])
          none
  ]
]

abbrev pub parsed : (String → String → Option Object) → Dict String → List Object
parsed parse [] = []
parsed parse ((name, url) ∷ rest) = elim (parse name url) [
  | none ↦ parsed parse rest
  | some ob ↦ ob ∷ parsed parse rest
]

-- `singboxExternalOutbounds`
unfoldable pub singbox_external_outbounds : World → ConfigGenerator → List Object
singbox_external_outbounds world cg =
    parsed (parse_singbox_external_outbound world) (sorted_by_name cg.external_outbounds)

-- the port that a link's inbound listens on
abbrev pub listen_port : ConfigGenerator → Link → ℤ
listen_port cg link =
    if link.listen_port == pos 0
    then if cg.socks_port == pos 0 then pos 2801 else cg.socks_port
    else link.listen_port

-- `singboxInbounds`
unfoldable pub singbox_inbounds : ConfigGenerator → Link → List Object
singbox_inbounds cg link =
    object_of (
      ("type", text "mixed")
      ∷ ("tag", text "mixed-in")
      ∷ ("listen", text "0.0.0.0")
      ∷ ("listen_port", number (listen_port cg link))
      ∷ [])
    ∷ []

-- `singboxInboundsGateway`
unfoldable pub singbox_inbounds_gateway : ConfigGenerator → Link → List Object
singbox_inbounds_gateway cg link =
    object_of (
      ("type", text "tun")
      ∷ ("tag", text "tun-in")
      ∷ ("address", texts ("10.0.0.1/30" ∷ []))
      ∷ ("auto_route", flag true)
      ∷ ("stack", text "system")
      ∷ [])
    ∷ object_of (
        ("type", text "direct")
        ∷ ("tag", text "dns-in")
        ∷ ("listen", text "0.0.0.0")
        ∷ ("listen_port", number (if cg.dns_port == pos 0 then pos 53 else cg.dns_port))
        ∷ ("network", text "udp")
        ∷ ("override_address", text "1.1.1.1")
        ∷ ("override_port", number (pos 53))
        ∷ [])
    ∷ singbox_inbounds cg link

abbrev pub direct_outbound : Object
direct_outbound = object_of (("type", text "direct") ∷ ("tag", text "direct") ∷ [])

-- the local SOCKS proxy of the tunnel before this one
abbrev pub chain_outbound : Link → Object
chain_outbound link = object_of (
    ("type", text "socks")
    ∷ ("tag", text "chain-out")
    ∷ ("server", text "127.0.0.1")
    ∷ ("server_port", number (extract_port link.chain_proxy))
    ∷ [])

-- `singboxOutbounds`
unfoldable pub singbox_outbounds : World → ConfigGenerator → Link → List Object
singbox_outbounds world cg link =
    let outbound = put "tag" (text "proxy") (build_singbox_outbound cg link) in
    let externals = singbox_external_outbounds world cg in
    let alone = outbound ∷ direct_outbound ∷ externals in
    let chained =
      put "detour" (text "chain-out") outbound
      ∷ chain_outbound link
      ∷ direct_outbound
      ∷ externals in
    if link.chain_proxy == "" then alone else chained

-- the generator as `generateSingBox` leaves it: a gateway takes its geosite countries from the whitelist
unfoldable pub fill_geosite : ConfigGenerator → ConfigGenerator
fill_geosite cg =
    let filled : ConfigGenerator = record cg { geosite_countries = cg.whitelist_countries } in
    if cg.gateway_mode && not (has_any cg.geosite_countries) && has_any cg.whitelist_countries
    then filled
    else cg

-- whether the route and DNS sections are written
abbrev pub needs_route : ConfigGenerator → Bool
needs_route cg =
    cg.gateway_mode
    || has_any cg.routing_rules
    || has_any cg.whitelist_countries
    || has_any cg.bypass_domains
    || has_any cg.geosite_countries
    || has_any cg.local_dns_rules

-- `generateSingBox`: the generator that it leaves, and the configuration that it writes
unfoldable pub generate_sing_box : World → ConfigGenerator → Link → ConfigGenerator × Object
generate_sing_box world before link =
    let cg = fill_geosite before in
    let inbounds =
      if cg.gateway_mode then singbox_inbounds_gateway cg link else singbox_inbounds cg link in
    (
      cg,
      put_if (needs_route cg) "dns" (object (singbox_dns world.is_ip world.geo cg (some link))) (
          put_if (needs_route cg) "route" (object (singbox_route world.geo cg)) (
            object_of (
              ("log", object (object_of (("level", text "info") ∷ [])))
              ∷ ("inbounds", array_of inbounds)
              ∷ ("outbounds", array_of (singbox_outbounds world cg link))
              ∷ []))),
    )
