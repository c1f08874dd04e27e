-- ===== src/Tunnel/Chain.antt =====
-- `buildChainOutbounds` and `GenerateChainConfig` of internal/tunnel/configgen.go.
pub mod Linked
use bypath.Base.{
  ℕ, zero, suc, ◌+◌, ◌-◌, pos, String, string_eq, Bool, true, List, [], ◌∷◌, ◌++◌, ◌<>◌, format_nat,
  length, Option, none, some,
}
use bypath.Profile.{Link}
use bypath.Tunnel.{ConfigGenerator}
use bypath.Tunnel.Json.{Object, text, number, flag, object, put, remove, object_of, array_of}
use bypath.Tunnel.Outbound.{build_singbox_outbound}
use bypath.Tunnel.Names.{sanitize_name}

-- `chain-<name>-hop-<i>`
abbrev pub hop_tag : String → ℕ → String
hop_tag chain i = "chain-" <> chain <> "-hop-" <> format_nat i

-- the outbound of hop `i`: tagged, and dialled through the hop before it
unfoldable pub hop : ConfigGenerator → String → ℕ → Link → Object
hop cg chain zero link = put "tag" (text (hop_tag chain zero)) (build_singbox_outbound cg link)
hop cg chain (suc i) link = remove "flow" (
    put "detour" (text (hop_tag chain i))
      (put "tag" (text (hop_tag chain (suc i))) (build_singbox_outbound cg link)))

abbrev pub direct_outbound : Object
direct_outbound = object_of (("type", text "direct") ∷ ("tag", text "direct") ∷ [])

-- the outbounds of the hops from number `i`
unfoldable pub hops_from : ConfigGenerator → String → ℕ → List Link → List Object
hops_from cg chain i [] = []
hops_from cg chain i (link ∷ links) = hop cg chain i link ∷ hops_from cg chain (suc i) links

-- `buildChainOutbounds`
unfoldable pub build_chain_outbounds : ConfigGenerator → String → List Link → List Object
build_chain_outbounds cg chain links = hops_from cg chain 0 links ++ (direct_outbound ∷ [])

-- the name of the file and the configuration that `GenerateChainConfig` writes; none for no links
unfoldable pub generate_chain_config :
    ConfigGenerator → String → List Link → Option (String × Object)
generate_chain_config cg chain [] = none
generate_chain_config cg chain (first ∷ links) =
    let inbound = object_of (
      ("type", text "mixed")
      ∷ ("tag", text "mixed-in")
      ∷ ("listen", text "0.0.0.0")
      ∷ ("listen_port", number (pos 10800))
      ∷ []) in
    let route = object_of (
      ("final", text (hop_tag chain (length links)))
      ∷ ("auto_detect_interface", flag true)
      ∷ ("default_domain_resolver", text "dns-direct")
      ∷ []) in
    let server = object_of (
      ("tag", text "dns-direct")
      ∷ ("type", text "udp")
      ∷ ("server", text "1.1.1.1")
      ∷ ("server_port", number (pos 53))
      ∷ []) in
    let dns = object_of (("servers", array_of (server ∷ [])) ∷ ("final", text "dns-direct") ∷ []) in
    some (
      "chain-" <> sanitize_name chain <> "-config.json",
      object_of (
          ("log", object (object_of (("level", text "info") ∷ [])))
          ∷ ("inbounds", array_of (inbound ∷ []))
          ∷ ("outbounds", array_of (build_chain_outbounds cg chain (first ∷ links)))
          ∷ ("route", object route)
          ∷ ("dns", object dns)
          ∷ []),
    )
