-- ===== src/Tunnel/Xray/Outbounds.antt =====
-- The outbounds of an xray configuration, in internal/tunnel/configgen.go.
use bypath.Base.{
  String, string_eq, not, Option, none, some, List, [], ◌∷◌, if◌then◌else◌, ◌==◌, atoi,
}
use bypath.Profile.{Link}
use bypath.Profile.Parser.Interface.{User, secret_of}
use bypath.Tunnel.{ConfigGenerator}
use bypath.Tunnel.Json.{
  Object, text, number, flag, object, empty, put, put_if, object_of, array_of, switch,
}
use bypath.Tunnel.Singbox.{World, sorted_by_name, parsed}

-- the transport settings that vmess and vless share
abbrev stream_of : Link → Object
stream_of link =
    put_if (link.network == "ws") "wsSettings"
      (object (
        put_if (not (link.host == "")) "host" (text link.host)
          (object_of (("path", text link.path) ∷ []))))
      (object_of (("network", text link.network) ∷ []))

abbrev tls_settings : Link → Object
tls_settings link =
    object_of (("serverName", text link.sni) ∷ ("allowInsecure", flag link.insecure) ∷ [])

abbrev imitate : Link → Object → Object
imitate link m = put_if (not (link.fingerprint == "")) "fingerprint" (text link.fingerprint) m

-- an outbound to one server with one user
abbrev to_user : String → Link → Object → Object → Object
to_user protocol link user stream =
    let vnext = object_of (
      ("address", text link.address)
      ∷ ("port", number link.port)
      ∷ ("users", array_of (user ∷ []))
      ∷ []) in
    object_of (
      ("protocol", text protocol)
      ∷ ("settings", object (object_of (("vnext", array_of (vnext ∷ [])) ∷ [])))
      ∷ ("streamSettings", object stream)
      ∷ [])

-- the case "vmess"
unfoldable pub xray_vmess : Link → Object
xray_vmess link =
    to_user "vmess" link
      (object_of (
        ("id", text link.uuid)
        ∷ ("alterId", number link.alter_id)
        ∷ ("security", text link.security)
        ∷ []))
      (put_if link.tls "tlsSettings" (object (tls_settings link))
        (put_if link.tls "security" (text "tls") (stream_of link)))

abbrev reality_settings : Link → Object
reality_settings link = object_of (
    ("serverName", text link.sni)
    ∷ ("publicKey", text link.reality_public_key)
    ∷ ("shortId", text link.reality_short_id)
    ∷ [])

-- the case "vless"
unfoldable pub xray_vless : Link → Object
xray_vless link =
    to_user "vless" link
      (object_of
        (("id", text link.uuid) ∷ ("encryption", text "none") ∷ ("flow", text link.flow) ∷ []))
      (if link.security == "reality"
        then put "realitySettings" (object (imitate link (reality_settings link)))
            (put "security" (text "reality") (stream_of link))
        else put_if link.tls "tlsSettings" (object (imitate link (tls_settings link)))
            (put_if link.tls "security" (text "tls") (stream_of link)))

-- an outbound to a SOCKS or HTTP proxy
abbrev to_proxy : String → Link → Object
to_proxy protocol link =
    let server = object_of (("address", text link.address) ∷ ("port", number link.port) ∷ []) in
    object_of (
      ("protocol", text protocol)
      ∷ ("settings", object (object_of (("servers", array_of (server ∷ [])) ∷ [])))
      ∷ [])

-- `xrayOutbounds`
unfoldable pub xray_outbounds : Link → List Object
xray_outbounds link =
    let freedom = object_of (("protocol", text "freedom") ∷ ("settings", object empty) ∷ []) in
    let outbound =
      switch link.protocol
        (("vmess", xray_vmess link)
          ∷ ("vless", xray_vless link)
          ∷ ("socks5", to_proxy "socks" link)
          ∷ ("socks", to_proxy "socks" link)
          ∷ ("http", to_proxy "http" link)
          ∷ [])
        freedom in
    put "tag" (text "proxy") outbound
    ∷ object_of (
        ("protocol", text "freedom")
        ∷ ("tag", text "direct")
        ∷ ("settings", object (object_of (("domainStrategy", text "UseIPv4") ∷ [])))
        ∷ [])
    ∷ []

abbrev users_of : Option User → Object → Object
users_of none server = server
users_of (some who) server =
    let user = object_of (("user", text who.name) ∷ ("pass", text (secret_of who)) ∷ []) in
    put "users" (array_of (user ∷ [])) server

-- `parseXrayExternalOutbound`
unfoldable pub parse_xray_external_outbound : World → String → String → Option Object
parse_xray_external_outbound world tag raw_url = elim (world.parse_address raw_url) [
  | none ↦ none
  | some u ↦ elim u.host_port [
    | none ↦ none
    | some (host, port) ↦
        let server =
          users_of u.user
            (object_of (("address", text host) ∷ ("port", number (atoi port)) ∷ [])) in
        let outbound : String → Option Object = λ protocol. some (
          object_of (
            ("tag", text tag)
            ∷ ("protocol", text protocol)
            ∷ ("settings", object (object_of (("servers", array_of (server ∷ [])) ∷ [])))
            ∷ [])) in
        switch u.scheme
          (("socks5", outbound "socks")
            ∷ ("socks5h", outbound "socks")
            ∷ ("socks4", outbound "socks")
            ∷ ("socks", outbound "socks")
            ∷ ("http", outbound "http")
            ∷ ("https", outbound "http")
            ∷ [])
          none
  ]
]

-- `xrayExternalOutbounds`
unfoldable pub xray_external_outbounds : World → ConfigGenerator → List Object
xray_external_outbounds world cg =
    parsed (parse_xray_external_outbound world) (sorted_by_name cg.external_outbounds)
