-- ===== src/Tunnel/Outbound.antt =====
-- `BuildSingboxOutbound` of internal/tunnel/configgen.go.
pub mod Bare
use mathlib.Core.Option
use bypath.Base.{
  ℤ, pos, int_eq, String, string_eq, Bool, true, false, not, ◌&&◌, ◌||◌, Option, none, some, List,
  [], ◌∷◌, if◌then◌else◌, ◌==◌, ◌≡◌, refl, contains, trim_space, cut_first, lookup,
}
use bypath.Profile.{Link}
use bypath.Tunnel.{ConfigGenerator}
use bypath.Tunnel.Json.{
  Object, Value, text, number, flag, texts, object, put, put_if, object_of, switch,
}

-- the first entry of a list with commas: `strings.Split(s, ",")[0]`, trimmed
abbrev pub first_entry : String → String
first_entry s = elim (cut_first b',' s) [ none ↦ s | some (before, behind) ↦ trim_space before ]

-- the server name that the outbound shows
unfoldable pub shown_sni : ConfigGenerator → Link → String
shown_sni cg link =
    let sni = first_entry link.sni in
    if not (cg.sni_spoof == "") && not (sni == "") then cg.sni_spoof else sni

-- the pinned address of the server, if there is one
unfoldable pub server_address : ConfigGenerator → Link → String
server_address cg link = elim (lookup link.address cg.pinned_hosts) [
  | none ↦ link.address
  | some ip ↦ if ip == "" then link.address else ip
]

-- the transport of a network other than TCP, with a path and a host header if they are set
unfoldable pub with_transport : Link → String → Object → Object
with_transport link host outbound =
    put_if (not (link.network == "") && not (link.network == "tcp")) "transport"
      (object (
        put_if (not (host == "")) "headers" (object (object_of (("Host", text host) ∷ []))) (
          put_if (not (link.path == "")) "path" (text link.path)
            (object_of (("type", text link.network) ∷ [])))))
      outbound

abbrev pub enabled : Object
enabled = object_of (("enabled", flag true) ∷ [])

abbrev pub name_server : String → Object → Object
name_server sni m = put_if (not (sni == "")) "server_name" (text sni) m

abbrev pub imitate : Link → Object → Object
imitate link m =
    put_if (not (link.fingerprint == "")) "utls"
      (object (object_of (("enabled", flag true) ∷ ("fingerprint", text link.fingerprint) ∷ []))) m

-- the Reality part
abbrev pub reality : Link → Object
reality link = put_if (not (link.reality_short_id == "")) "short_id" (text link.reality_short_id) (
    put_if (not (link.reality_public_key == "")) "public_key" (text link.reality_public_key)
      enabled)

-- the TLS part of a vless outbound
unfoldable pub with_vless_tls : Link → String → Object → Object
with_vless_tls link sni outbound =
    if link.security == "reality"
    then put "tls"
        (object (imitate link (put "reality" (object (reality link)) (name_server sni enabled))))
        outbound
    else put_if link.tls "tls"
        (object (
          imitate link
            (name_server sni (object_of (("enabled", flag true) ∷ ("insecure", flag true) ∷ [])))))
        outbound

-- `type`, `server` and `server_port`
abbrev pub endpoint : String → String → ℤ → List (String × Value) → Object
endpoint kind server port more =
    object_of (("type", text kind) ∷ ("server", text server) ∷ ("server_port", number port) ∷ more)

abbrev pub with_login : Link → Object → Object
with_login link m =
    put_if (not (link.uuid == "")) "password" (text link.security)
      (put_if (not (link.uuid == "")) "username" (text link.uuid) m)

module _ (cg : ConfigGenerator) (link : Link) where
  -- the case "vmess"
  unfoldable pub vmess_outbound : Object
  vmess_outbound = put_if link.tls "tls" (object (name_server (shown_sni cg link) enabled)) (
      with_transport link (first_entry link.host) (
        endpoint "vmess" (server_address cg link) link.port (
          ("uuid", text link.uuid)
          ∷ ("alter_id", number link.alter_id)
          ∷ ("security", text link.security)
          ∷ [])))

  -- the case "vless"
  unfoldable pub vless_outbound : Object
  vless_outbound = with_vless_tls link (shown_sni cg link) (
      with_transport link (first_entry link.host) (
        put_if (not (link.flow == "")) "flow" (text link.flow)
          (endpoint "vless" (server_address cg link) link.port (("uuid", text link.uuid) ∷ []))))

  -- the case "trojan", whose transport has no host header
  unfoldable pub trojan_outbound : Object
  trojan_outbound = with_transport link "" (
      put "tls" (object (name_server (shown_sni cg link) enabled))
        (endpoint "trojan" (server_address cg link) link.port (("password", text link.uuid) ∷ [])))

  -- the case "shadowsocks"
  unfoldable pub shadowsocks_outbound : Object
  shadowsocks_outbound =
      endpoint "shadowsocks" (server_address cg link) link.port
        (("method", text link.security) ∷ ("password", text link.uuid) ∷ [])

  -- the case "wireguard"
  unfoldable pub wireguard_outbound : Object
  wireguard_outbound = endpoint "wireguard" (server_address cg link) link.port (
      ("private_key", text link.private_key)
      ∷ ("peer_public_key", text link.public_key)
      ∷ ("local_address", texts ("10.0.0.2/32" ∷ []))
      ∷ [])

  -- the case "socks5"
  unfoldable pub socks5_outbound : Object
  socks5_outbound =
      with_login link
        (endpoint "socks" (server_address cg link) link.port (("version", text "5") ∷ []))

  -- the case "http"
  unfoldable pub http_outbound : Object
  http_outbound =
      put_if link.tls "tls" (object enabled)
        (with_login link (endpoint "http" (server_address cg link) link.port []))

  -- the case "ssh": the SOCKS port of a local `ssh -D`
  unfoldable pub ssh_outbound : Object
  ssh_outbound =
      endpoint "socks" "127.0.0.1"
        (if link.listen_port == pos 0 then pos 10800 else link.listen_port)
        (("version", text "5") ∷ [])

  -- `BuildSingboxOutbound`
  unfoldable pub build_singbox_outbound : Object
  build_singbox_outbound =
      switch link.protocol
        (("vmess", vmess_outbound)
          ∷ ("vless", vless_outbound)
          ∷ ("trojan", trojan_outbound)
          ∷ ("shadowsocks", shadowsocks_outbound)
          ∷ ("wireguard", wireguard_outbound)
          ∷ ("socks5", socks5_outbound)
          ∷ ("http", http_outbound)
          ∷ ("ssh", ssh_outbound)
          ∷ [])
        (object_of (("type", text "direct") ∷ []))
