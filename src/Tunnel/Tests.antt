-- ===== src/Tunnel/Tests.antt =====
-- Runs of the configuration generator on concrete inputs, and the theorems about it at such inputs.
use bypath.Base.{
  lookup, insert, refl, none, Some, map, pos, String, string_eq, Bool, true, false, some, List, [],
  ◌∷◌, ◌++◌, ◌≡◌, ◌≢◌, ◌↔◌, ◌==◌, All, select,
}
use bypath.Profile.{Link, zero_link}
use bypath.Tunnel.{ConfigGenerator, RoutingRule}
use bypath.Tunnel.Json.{switch, text, get, object_of, switch, put, put_if, objects_at}
use bypath.Tunnel.Outbound.{build_singbox_outbound, vless_outbound, with_transport, with_vless_tls}
use bypath.Tunnel.Chain.{build_chain_outbounds, generate_chain_config}
use bypath.Tunnel.Chain.Linked.{
  IsChained, Exits, build_chain_outbounds-IsHop, generate_chain_config-Exits,
}
use bypath.Tunnel.Route.{
  GeoFiles, routed, singbox_route, sniff, resolve_by, private_direct, local_rules,
}
use bypath.Tunnel.Route.Closed.{Closed}
use bypath.Tunnel.Route.Section.{singbox_route-Closed}
use bypath.Tunnel.Route.Order.{routed-Order, converted_rules, last_default}
use bypath.Tunnel.Dns.{singbox_dns, proxy_domains, is_used}
use bypath.Tunnel.Dns.Served.{IsWhole, singbox_dns-Served}
use bypath.Tunnel.Dns.Dangling.{IsDangling, singbox_dns-IsDangling}
use bypath.Tunnel.Singbox.{
  World, singbox_outbounds, singbox_external_outbounds, parse_singbox_external_outbound,
  sorted_by_name, insert_sorted,
}
use bypath.Tunnel.Singbox.Dialled
use bypath.Tunnel.Manager.{
  Manager, Outcome, start_tunnel, start_ssh_tunnel, stop_tunnel, stop_process, resolve_engine,
  already_running,
}
use bypath.Tunnel.Manager.Held.{Held}
use bypath.Tunnel.Manager.History.{no_tunnels, Reached-Held, next, fresh, start}
use bypath.Tunnel.Names.{extract_port}
use bypath.Tunnel.Dns.Hosts.{IsNamed, proxy_domains_iff}

abbrev home_geo : GeoFiles
home_geo = record { path = λ name. name; has_file = λ path. path == "geosite-ir.srs" }

abbrev to : String → String → RoutingRule
to matcher outbound = record { matcher = matcher; outbound = outbound }

abbrev gateway : ConfigGenerator
gateway = record {
  whitelist_countries = "ir" ∷ [];
  geosite_countries = [];
  bypass_domains = [];
  force_proxy_domains = [];
  dns_upstream = "1.1.1.1" ∷ "9.9.9.9" ∷ [];
  socks_port = pos 2801;
  sni_spoof = "";
  gateway_mode = true;
  dns_port = pos 0;
  routing_rules =
      to "geosite:ir" "direct"
      ∷ to "geoip:ir" "direct"
      ∷ to "domain:a.example" "proxy"
      ∷ to "default" "office"
      ∷ [];
  external_outbounds = [];
  pinned_hosts = [];
  local_dns_rules = record { server = "192.168.1.1"; domains = "home" ∷ [] } ∷ [];
}

abbrev legacy : ConfigGenerator
legacy = record gateway { routing_rules = [] }

abbrev server_link : Link
server_link = record zero_link {
  protocol = "vless";
  address = "vpn.example";
  port = pos 443;
  flow = "xtls-rprx-vision";
  sni = "vpn.example";
  host = "1.2.3.4";
}

abbrev is_test_ip : String → Bool
is_test_ip s = s == "1.2.3.4"

abbrev two_links : List Link
two_links = server_link ∷ record server_link { protocol = "http" } ∷ []

build_chain_outbounds-IsHop_example :
    IsChained gateway "c" two_links (build_chain_outbounds gateway "c" two_links)
build_chain_outbounds-IsHop_example = build_chain_outbounds-IsHop gateway "c" two_links

generate_chain_config-Exits_example :
    Exits gateway "c" two_links (generate_chain_config gateway "c" two_links)
generate_chain_config-Exits_example = generate_chain_config-Exits gateway "c" two_links

singbox_route-Closed_example :
    Closed
      (objects_at "rule_set" (singbox_route home_geo gateway))
      (objects_at "rules" (singbox_route home_geo gateway))
singbox_route-Closed_example = singbox_route-Closed home_geo gateway

routed-Order_example :
    ((routed home_geo gateway).rules
      ≡ (sniff ∷ resolve_by "dns-tunnel" ∷ private_direct ∷ local_rules gateway.local_dns_rules)
        ++ converted_rules home_geo gateway.routing_rules)
    × ((routed home_geo gateway).final_outbound ≡ last_default "proxy" gateway.routing_rules)
routed-Order_example = routed-Order home_geo gateway

abbrev no_locals : ConfigGenerator
no_locals = record gateway { local_dns_rules = [] }

singbox_dns-Served_example : IsWhole (singbox_dns is_test_ip home_geo no_locals (some server_link))
singbox_dns-Served_example =
    singbox_dns-Served is_test_ip home_geo no_locals (some server_link) refl

singbox_dns-IsDangling_example :
    All
      (λ rule.
        Some
          (IsDangling
            (objects_at "servers" (singbox_dns is_test_ip home_geo gateway none))
            rule.domains)
          (objects_at "rules" (singbox_dns is_test_ip home_geo gateway none)))
      (select is_used gateway.local_dns_rules)
singbox_dns-IsDangling_example = singbox_dns-IsDangling is_test_ip home_geo gateway none refl

-- one external outbound at a known address
abbrev small_world : World
small_world = record {
  parse_address = λ url.
      some (record { scheme = "socks5"; user = none; host_port = some ("10.1.1.1", "8088") });
  is_ip = is_test_ip;
  geo = home_geo;
}

abbrev with_office : ConfigGenerator
with_office = record gateway { external_outbounds = ("office", "socks5://10.1.1.1:8088") ∷ [] }

abbrev chained_link : Link
chained_link = record server_link { chain_proxy = "127.0.0.1:10801" }

singbox_outbounds-IsWhole_example :
    Dialled.IsWhole small_world (singbox_outbounds small_world with_office chained_link)
singbox_outbounds-IsWhole_example =
    Dialled.singbox_outbounds-IsWhole small_world with_office chained_link

-- the tags of the outbounds, and the server and the port of those that have one
outbounds_run :
    map (get "tag") (singbox_outbounds small_world with_office chained_link)
    ≡ some (text "proxy")
      ∷ some (text "chain-out")
      ∷ some (text "direct")
      ∷ some (text "office")
      ∷ []
unfolding singbox_outbounds singbox_external_outbounds parse_singbox_external_outbound
    sorted_by_name insert_sorted get put put_if object_of switch build_singbox_outbound
    vless_outbound with_transport with_vless_tls extract_port
outbounds_run = refl

abbrev vpn : String
vpn = "vpn.example"

proxy_domains_iff_example :
    IsNamed (proxy_domains is_test_ip (some server_link)) vpn
    ↔ (IsNamed (vpn ∷ vpn ∷ "1.2.3.4" ∷ []) vpn × (vpn ≢ "") × (is_test_ip vpn ≡ false))
proxy_domains_iff_example = proxy_domains_iff is_test_ip server_link vpn

-- everything succeeds
abbrev all_well : Outcome
all_well = record {
  has_engine = λ name. true;
  writes_config = true;
  starts = true;
  port_opens = true;
  has_sshpass = false;
}

abbrev one_tunnel : Manager
one_tunnel = (start_tunnel all_well "t" server_link "" no_tunnels).0

-- a tunnel that runs is not started again, and one that was stopped is
restart_run :
    ((start_tunnel all_well "t" server_link "" one_tunnel).1 ≡ some already_running)
    × ((start_tunnel all_well "t" server_link "" (stop_tunnel "t" one_tunnel).0).1 ≡ none)
unfolding start_tunnel stop_tunnel start_ssh_tunnel resolve_engine stop_process lookup insert switch
restart_run = (refl, refl)

Reached-Held_example : Held 0 one_tunnel.tunnels
unfolding start_tunnel start_ssh_tunnel resolve_engine insert switch lookup
Reached-Held_example = Reached-Held (next fresh (start all_well "t" server_link "")) 0 refl
