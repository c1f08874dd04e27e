-- ===== src/Tunnel/Strategy/Tests.antt =====
-- Runs of the choice of a strategy, and the theorems about it at concrete inputs.
use bypath.Base.{pos, String, string_eq, false, List, [], ◌∷◌, none, ◌≡◌, ◌↔◌, refl, All, lookup}
use bypath.Profile.{Link, Group, zero_link}
use bypath.Profile.Store.{Manager, get_link, find_link, find_in_groups}
use bypath.Tunnel.{ConfigGenerator}
use bypath.Tunnel.Strategy.{
  ChainStrategy, single_process, multi_process, HopConfig, is_compatible, hop_strategy,
  resolve_chain_strategy,
}
use bypath.Tunnel.Strategy.Native.{
  IsNative, IsDialled, resolve_chain_strategy_iff, resolve_chain_strategy-IsDialled,
}

abbrev link_of : String → String → Link
link_of remark protocol = record zero_link {
  remark = remark;
  protocol = protocol;
  address = "vpn.example";
  port = pos 443;
}

abbrev home_group : Group
home_group = record {
  name = "home";
  kind = "basic";
  links = link_of "entry" "vless" ∷ link_of "exit" "wireguard" ∷ link_of "shell" "ssh" ∷ [];
  subscriptions = [];
}

abbrev home : Manager
home = record {
  directory = [];
  groups = ("home", home_group) ∷ [];
  active_group = "home";
  active_link = none;
}

abbrev plain : ConfigGenerator
plain = record {
  whitelist_countries = [];
  geosite_countries = [];
  bypass_domains = [];
  force_proxy_domains = [];
  dns_upstream = [];
  socks_port = pos 2801;
  sni_spoof = "";
  gateway_mode = false;
  dns_port = pos 0;
  routing_rules = [];
  external_outbounds = [];
  pinned_hosts = [];
  local_dns_rules = [];
}

abbrev by : String → String → HopConfig
by profile engine = record { profile = profile; engine = engine; isolate = false }

abbrev two_hops : List HopConfig
two_hops = by "entry" "" ∷ by "exit" "sing-box" ∷ []

abbrev strategy : List HopConfig → ChainStrategy
strategy = resolve_chain_strategy (home_group ∷ []) home

two_hops-single : strategy two_hops ≡ single_process
unfolding resolve_chain_strategy hop_strategy is_compatible get_link find_link find_in_groups lookup
two_hops-single = refl

shell_hop-multi : strategy (by "entry" "" ∷ by "shell" "" ∷ []) ≡ multi_process
unfolding resolve_chain_strategy hop_strategy is_compatible get_link find_link find_in_groups lookup
shell_hop-multi = refl

xray_hop-multi : strategy (by "entry" "xray" ∷ []) ≡ multi_process
unfolding resolve_chain_strategy hop_strategy is_compatible get_link find_link find_in_groups lookup
xray_hop-multi = refl

missing_hop-multi : strategy (by "nobody" "" ∷ []) ≡ multi_process
unfolding resolve_chain_strategy hop_strategy is_compatible get_link find_link find_in_groups lookup
missing_hop-multi = refl

resolve_chain_strategy_iff_example :
    (strategy two_hops ≡ single_process) ↔ All (IsNative (home_group ∷ []) home) two_hops
resolve_chain_strategy_iff_example = resolve_chain_strategy_iff (home_group ∷ []) home two_hops

resolve_chain_strategy-IsDialled_example : All (IsDialled plain (home_group ∷ []) home) two_hops
resolve_chain_strategy-IsDialled_example =
    resolve_chain_strategy-IsDialled plain (home_group ∷ []) home two_hops two_hops-single
