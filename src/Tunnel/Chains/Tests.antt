-- ===== src/Tunnel/Chains/Tests.antt =====
-- Chains on concrete profiles, and the theorems about them.
use bypath.Base.{
  arith, ℕ, pos, String, string_eq, nat_eq, ◌==◌, true, false, List, [], ◌∷◌, none, map, Dict,
  lookup, insert, ◌≡◌, refl, format_nat, digit, digits,
}
use bypath.Profile.{Link, Group, zero_link}
use bypath.Profile.Store.{get_link, find_link, find_in_groups}
use bypath.Tunnel.{ConfigGenerator}
use bypath.Tunnel.Strategy.{is_compatible, hop_strategy, resolve_chain_strategy}
use bypath.Tunnel.Manager.{Outcome, resolve_engine, start_tunnel, stop_process}
use bypath.Tunnel.Manager.History.{no_tunnels}
use bypath.Tunnel.Chains.{
  ChainManager, ChainConfig, start_chain, kept_chain, start_hops, after_start, link_changed,
  changed_in_groups, first_changed, stop_chain_hops, stop_hop,
}
use bypath.Tunnel.Chains.Starts.{IsNumbered}
use bypath.Tunnel.Chains.Cleaned.{ChainEnds, start_chain-Ends}

abbrev link_of : String → String → Link
link_of remark protocol = record zero_link {
  remark = remark;
  protocol = protocol;
  address = "vpn.example";
  port = pos 443;
  group = "home";
}

abbrev home_group : Group
home_group = record {
  name = "home";
  kind = "basic";
  links = link_of "entry" "vless" ∷ link_of "exit" "hysteria2" ∷ [];
  subscriptions = [];
}

abbrev in_order : Dict Group → List Group
in_order groups = map (λ (e : String × Group). e.1) groups

abbrev idle : ChainManager
idle = record {
  tunnels = no_tunnels;
  chains = [];
  profiles = record {
    directory = [];
    groups = ("home", home_group) ∷ [];
    active_group = "home";
    active_link = none;
  };
}

abbrev two_hops : ChainConfig
two_hops = record {
  name = "trip";
  hops =
      record { profile = "entry"; engine = ""; isolate = false }
      ∷ record { profile = "exit"; engine = ""; isolate = false }
      ∷ [];
}

-- the second hop does not start
abbrev one_starts : ℕ → Outcome
one_starts n = record {
  has_engine = λ name. true;
  writes_config = true;
  starts = n == 0;
  port_opens = true;
  has_sshpass = false;
}

abbrev all_start : ℕ → Outcome
all_start n = record (one_starts n) { starts = true }

abbrev plain : ConfigGenerator
plain = record {
  whitelist_countries = [];
  geosite_countries = [];
  bypass_domains = [];
  force_proxy_domains = [];
  dns_upstream = [];
  socks_port = pos 2801;
  sni_spoof = "";
  gateway_mode = false;
  dns_port = pos 0;
  routing_rules = [];
  external_outbounds = [];
  pinned_hosts = [];
  local_dns_rules = [];
}

idle-IsNumbered : IsNumbered idle.tunnels.processes
idle-IsNumbered q loose = absurd (ground (arith, loose))

start_chain-Ends_example :
    IsNumbered (start_chain plain in_order one_starts two_hops idle).0.tunnels.processes
    × ChainEnds idle.tunnels.processes "trip" (start_chain plain in_order one_starts two_hops idle)
start_chain-Ends_example = start_chain-Ends plain in_order one_starts two_hops idle idle-IsNumbered

-- the first hop is cancelled when the second one fails
one_starts-cancelled :
    (start_chain plain in_order one_starts two_hops idle).0.tunnels.processes.cancelled ≡ 0 ∷ []
unfolding start_chain start_hops after_start kept_chain link_changed changed_in_groups first_changed
    stop_chain_hops stop_hop stop_process start_tunnel resolve_engine resolve_chain_strategy
    hop_strategy is_compatible get_link find_link find_in_groups lookup insert format_nat digits
    digit
one_starts-cancelled = refl
