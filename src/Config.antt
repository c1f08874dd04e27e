-- ===== src/Config.antt =====
-- internal/config/config.go: the configuration as it is loaded. Decoding YAML is not modelled.
pub mod Defaults
mod Tests
use bypath.Base.{ℤ, Bool, List, String, Dict}

pub record ServerConfig : Type 0 where
  pub listen : String
  pub api_port : ℤ
  pub dns_port : ℤ
  pub socks_port : ℤ
  pub api_token : String

-- `LocalDNSEntry`
pub record LocalDnsEntry : Type 0 where
  pub server : String
  pub domains : List String

pub record GatewayConfig : Type 0 where
  pub enabled : Bool
  pub interface : String
  pub dns_upstream : List String
  pub native_tun : Bool
  pub local_dns : List LocalDnsEntry

pub record FallbackConfig : Type 0 where
  pub enabled : Bool
  pub timeout : String
  pub order : List String

pub record EnginesConfig : Type 0 where
  pub directory : String
  pub prefer_system : Bool
  pub preferred_engine : String
  pub fallback : FallbackConfig

pub record WhitelistConfig : Type 0 where
  pub countries : List String
  pub geosite_countries : List String
  pub geosite_url : String
  pub bypass_domains : List String
  pub force_proxy_domains : List String
  pub update_interval : String

pub record ProfilesConfig : Type 0 where
  pub active_group : String
  pub directory : String

pub record HealthCheckConfig : Type 0 where
  pub enabled : Bool
  pub interval : String
  pub url : String

-- `Config`, but for the parts that loading leaves as they are
pub record Config : Type 0 where
  pub server : ServerConfig
  pub gateway : GatewayConfig
  pub engines : EnginesConfig
  pub whitelist : WhitelistConfig
  pub profiles : ProfilesConfig
  pub health_check : HealthCheckConfig
