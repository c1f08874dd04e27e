-- ===== src/Config/Tests.antt =====
-- Runs of the defaults on a concrete configuration.
use bypath.Base.{pos, string_eq, true, false, [], ◌∷◌, ◌≡◌, refl, select}
use bypath.Config.{Config}
use bypath.Config.Defaults.{apply_defaults, validate_bypass_domains, load, IsLoaded, load-IsLoaded}

-- an empty file, but for a switch that turns fallback off and a bypass domain
abbrev sparse : Config
sparse = record {
  server = record {
    listen = "";
    api_port = pos 0;
    dns_port = pos 0;
    socks_port = pos 1080;
    api_token = "";
  };
  gateway = record {
    enabled = false;
    interface = "";
    dns_upstream = [];
    native_tun = true;
    local_dns = [];
  };
  engines = record {
    directory = "";
    prefer_system = false;
    preferred_engine = "";
    fallback = record { enabled = false; timeout = ""; order = [] };
  };
  whitelist = record {
    countries = [];
    geosite_countries = [];
    geosite_url = "";
    bypass_domains = "" ∷ "a.example" ∷ [];
    force_proxy_domains = [];
    update_interval = "";
  };
  profiles = record { active_group = ""; directory = "" };
  health_check = record { enabled = false; interval = ""; url = "" };
}

sparse_run :
    ((load "/e" "/p" sparse).engines.fallback.enabled ≡ true)
    × ((load "/e" "/p" sparse).server.socks_port ≡ pos 1080)
    × ((load "/e" "/p" sparse).whitelist.bypass_domains ≡ "a.example" ∷ [])
unfolding load apply_defaults validate_bypass_domains select
sparse_run = (refl, refl, refl)

load-IsLoaded_example : IsLoaded "/e" "/p" sparse (load "/e" "/p" sparse)
load-IsLoaded_example = load-IsLoaded "/e" "/p" sparse
