-- ===== src/Gateway/Samples.antt =====
-- Configurations that the tests of the gateway share.
use bypath.Base.{pos, string_eq, true, false, [], ◌∷◌, contains, refl}
use bypath.Config.{Config, LocalDnsEntry}
use bypath.Gateway.Reload.Listed.{IsPlainConfig}

abbrev pub sample : Config
sample = record {
  server = record {
    listen = "0.0.0.0";
    api_port = pos 8080;
    dns_port = pos 53;
    socks_port = pos 2801;
    api_token = "";
  };
  gateway = record {
    enabled = true;
    interface = "";
    dns_upstream = "1.1.1.1" ∷ "8.8.8.8" ∷ [];
    native_tun = true;
    local_dns = [];
  };
  engines = record {
    directory = "/e";
    prefer_system = true;
    preferred_engine = "";
    fallback = record { enabled = true; timeout = "10s"; order = "sing-box" ∷ "xray" ∷ [] };
  };
  whitelist = record {
    countries = [];
    geosite_countries = [];
    geosite_url = "";
    bypass_domains = [];
    force_proxy_domains = [];
    update_interval = "24h";
  };
  profiles = record { active_group = "home"; directory = "/p" };
  health_check = record { enabled = false; interval = "30s"; url = "http://a.example" };
}

abbrev home_entry : LocalDnsEntry
home_entry = record { server = "192.168.1.1"; domains = "home" ∷ "lan" ∷ [] }

-- another port and a local DNS server
abbrev pub moved : Config
moved = record sample {
  server = record sample.server { socks_port = pos 1080 };
  gateway = record sample.gateway { local_dns = home_entry ∷ [] };
}

pub sample-IsPlainConfig : IsPlainConfig sample
unfolding contains
sample-IsPlainConfig = record { dns_upstream = ((refl, refl), ((refl, refl), tt)); local_dns = tt }

pub moved-IsPlainConfig : IsPlainConfig moved
unfolding contains
moved-IsPlainConfig = record {
  dns_upstream = ((refl, refl), ((refl, refl), tt));
  local_dns = (((refl, refl), ((refl, refl), tt)), tt);
}
