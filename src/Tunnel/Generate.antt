-- ===== src/Tunnel/Generate.antt =====
-- `Generate` of internal/tunnel/configgen.go: the file that is written for an engine and a link.
use bypath.Base.{String, string_eq, Bool, [], ◌∷◌, ◌<>◌, format_int, Option, none, some}
use bypath.Profile.{Link}
use bypath.Tunnel.{ConfigGenerator}
use bypath.Tunnel.Json.{Object, switch}
use bypath.Tunnel.Names.{sanitize_name}
use bypath.Tunnel.Singbox.{World, generate_sing_box}
use bypath.Tunnel.Xray.{generate_xray}

-- what is written: JSON of a map, or lines
pub data Content : Type 0 where
  json : Object → Content
  lines : String → Content

-- a file of the folder for temporary files
pub record File : Type 0 where
  pub name : String
  pub content : Content

-- `generateWireGuard`
unfoldable pub generate_wireguard : Link → File
generate_wireguard link = record {
  name = "wg-" <> sanitize_name link.remark <> ".conf";
  content = lines (
      "[Interface]\nPrivateKey = "
      <> link.private_key
      <> "\nAddress = 10.0.0.2/32\nDNS = 1.1.1.1\n\n[Peer]\nPublicKey = "
      <> link.public_key
      <> "\nEndpoint = "
      <> link.address
      <> ":"
      <> format_int link.port
      <> "\nAllowedIPs = 0.0.0.0/0\nPersistentKeepalive = 25\n");
}

-- `generateOpenVPN`
unfoldable pub generate_openvpn : Link → File
generate_openvpn link = record {
  name = "ovpn-" <> sanitize_name link.remark <> ".conf";
  content = lines (
      "client\ndev tun\nproto udp\nremote "
      <> link.address
      <> " "
      <> format_int link.port
      <> "\nresolv-retry infinite\nnobind\npersist-key\npersist-tun\ncipher AES-256-GCM\nauth SHA256\nverb 3\n");
}

-- `Generate`: the generator that it leaves, and the file; none for an engine that is not known
unfoldable pub generate :
    World → Bool → ConfigGenerator → String → Link → ConfigGenerator × Option File
generate world geosite cg engine link =
    let (filled, singbox) = generate_sing_box world cg link in
    switch engine
      ((
        "sing-box",
        (filled, some (record { name = "singbox-config.json"; content = json singbox })),
      )
        ∷ (
          "xray",
          (
            cg,
            some (record {
              name = "xray-config.json";
              content = json (generate_xray world geosite cg link);
            }),
          ),
        )
        ∷ ("wireguard-go", (cg, some (generate_wireguard link)))
        ∷ ("openvpn", (cg, some (generate_openvpn link)))
        ∷ [])
      (cg, none)
