-- ===== src/Tunnel.antt =====
-- internal/tunnel: the configurations that are generated for the engines (configgen.go), the choice
-- between one process and several for a chain (chain.go), and the manager of tunnels (tunnel.go). The
-- settings of the generator stand here.
pub mod Json
pub mod Names
pub mod Outbound
pub mod Chain
pub mod Strategy
pub mod Route
pub mod Dns
pub mod Singbox
pub mod Xray
pub mod Generate
pub mod Manager
pub mod Commands
pub mod Chains
mod Tests
use bypath.Base.{ℤ, pos, int_eq, Bool, List, String, Dict}

-- `RoutingRule`; its field `Match`
pub record RoutingRule : Type 0 where
  pub matcher : String
  pub outbound : String

-- `LocalDNSRule`
pub record LocalDnsRule : Type 0 where
  pub server : String
  pub domains : List String

-- `ConfigGenerator`
pub record ConfigGenerator : Type 0 where
  pub whitelist_countries : List String
  pub geosite_countries : List String
  pub bypass_domains : List String
  pub force_proxy_domains : List String
  pub dns_upstream : List String
  pub socks_port : ℤ
  pub sni_spoof : String
  pub gateway_mode : Bool
  pub dns_port : ℤ
  pub routing_rules : List RoutingRule
  pub external_outbounds : Dict String
  pub pinned_hosts : Dict String
  pub local_dns_rules : List LocalDnsRule
