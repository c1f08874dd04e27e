-- ===== src/Config/Defaults.antt =====
-- The values that `applyDefaults` and `validateBypassDomains` of internal/config/config.go put in.
use bypath.Base.{
  ℤ, pos, int_eq, String, string_eq, Bool, true, false, not, ◌&&◌, List, [], ◌∷◌, select,
  if◌then◌else◌, ◌==◌, ◌≡◌, ◌≢◌, refl, ap, sym, ◌∙◌, inl, inr, ◌⊎◌, Bool-cases, arith, eq_iff,
}
use bypath.Config.{FallbackConfig, Config}

-- `if s == "" { s = d }`
abbrev or_text : String → String → String
or_text d s = if s == "" then d else s

abbrev or_int : ℤ → ℤ → ℤ
or_int d n = if n == pos 0 then d else n

abbrev or_list : List String → List String → List String
or_list d [] = d
or_list d (x ∷ xs) = x ∷ xs

abbrev is_empty : List String → Bool
is_empty [] = true
is_empty (x ∷ xs) = false

-- fallback is on, where it is off without an order
abbrev pub default_fallback : FallbackConfig → FallbackConfig
default_fallback f =
    let filled : FallbackConfig = record {
      enabled = true;
      timeout = "10s";
      order = "sing-box" ∷ "xray" ∷ [];
    } in
    if not f.enabled && is_empty f.order then filled else f

-- `applyDefaults`; the directories are those of `paths.Get()`
unfoldable pub apply_defaults : String → String → Config → Config
apply_defaults engine_dir profile_dir cfg = record {
  server = record cfg.server {
    listen = or_text "0.0.0.0" cfg.server.listen;
    api_port = or_int (pos 8080) cfg.server.api_port;
    dns_port = or_int (pos 53) cfg.server.dns_port;
    socks_port = or_int (pos 2801) cfg.server.socks_port;
  };
  gateway = record cfg.gateway {
    dns_upstream = or_list ("1.1.1.1" ∷ "8.8.8.8" ∷ []) cfg.gateway.dns_upstream;
  };
  engines = record cfg.engines {
    directory = or_text engine_dir cfg.engines.directory;
    fallback = default_fallback cfg.engines.fallback;
  };
  whitelist = record cfg.whitelist {
    geosite_url =
        or_text
          "https://github.com/SagerNet/sing-geosite/releases/latest/download/geosite-{country}.srs"
          cfg.whitelist.geosite_url;
    update_interval = or_text "24h" cfg.whitelist.update_interval;
  };
  profiles = record {
    active_group = or_text "default" cfg.profiles.active_group;
    directory = or_text profile_dir cfg.profiles.directory;
  };
  health_check = record cfg.health_check {
    interval = or_text "60s" cfg.health_check.interval;
    url = or_text "http://ip-api.com/json" cfg.health_check.url;
  };
}

-- `validateBypassDomains`
unfoldable pub validate_bypass_domains : Config → Config
validate_bypass_domains cfg = record cfg {
  whitelist = record cfg.whitelist {
    bypass_domains = select (λ d. not (d == "")) cfg.whitelist.bypass_domains;
  };
}

-- `Load`, behind the decoding of YAML
unfoldable pub load : String → String → Config → Config
load engine_dir profile_dir cfg =
    validate_bypass_domains (apply_defaults engine_dir profile_dir cfg)

-- A field as it is loaded: what the file sets, or the default where the file leaves it at its zero.
abbrev pub IsFilled : {A : Type 0} (zero default set result : A) → Type 0
IsFilled zero default set result =
    ((set ≡ zero) × (result ≡ default)) ⊎ ((set ≢ zero) × (result ≡ set))

abbrev pub IsText : (default set result : String) → Type 0
IsText default set result = IsFilled "" default set result

abbrev pub IsPort : (default : ℤ) (set result : ℤ) → Type 0
IsPort default set result = IsFilled (pos 0) default set result

-- The fallback between engines: on with its defaults where the file has it off and without an order.
abbrev pub IsFallback : FallbackConfig → FallbackConfig → Type 0
IsFallback set result =
    ((set.enabled ≡ false)
      × (set.order ≡ [])
      × (result.enabled ≡ true)
      × (result.timeout ≡ "10s")
      × (result.order ≡ "sing-box" ∷ "xray" ∷ []))
    ⊎ (((set.enabled ≡ true) ⊎ (set.order ≢ [])) × (result ≡ set))

-- What is loaded of a file.
pub record IsLoaded (engine_dir profile_dir : String) (file cfg : Config) : Type 0 where
  listen : IsText "0.0.0.0" file.server.listen cfg.server.listen
  api_port : IsPort (pos 8080) file.server.api_port cfg.server.api_port
  dns_port : IsPort (pos 53) file.server.dns_port cfg.server.dns_port
  socks_port : IsPort (pos 2801) file.server.socks_port cfg.server.socks_port
  dns_upstream :
      IsFilled [] ("1.1.1.1" ∷ "8.8.8.8" ∷ []) file.gateway.dns_upstream cfg.gateway.dns_upstream
  engines : IsText engine_dir file.engines.directory cfg.engines.directory
  fallback : IsFallback file.engines.fallback cfg.engines.fallback
  active_group : IsText "default" file.profiles.active_group cfg.profiles.active_group
  profiles : IsText profile_dir file.profiles.directory cfg.profiles.directory
  update_interval : IsText "24h" file.whitelist.update_interval cfg.whitelist.update_interval
  geosite_url :
      IsText
        "https://github.com/SagerNet/sing-geosite/releases/latest/download/geosite-{country}.srs"
        file.whitelist.geosite_url cfg.whitelist.geosite_url
  interval : IsText "60s" file.health_check.interval cfg.health_check.interval
  health_url : IsText "http://ip-api.com/json" file.health_check.url cfg.health_check.url
  bypass_domains :
      cfg.whitelist.bypass_domains ≡ select (λ d. not (d == "")) file.whitelist.bypass_domains
  others : file ≡ record cfg {
    server = record cfg.server {
      listen = file.server.listen;
      api_port = file.server.api_port;
      dns_port = file.server.dns_port;
      socks_port = file.server.socks_port;
    };
    gateway = record cfg.gateway { dns_upstream = file.gateway.dns_upstream };
    engines = record cfg.engines {
      directory = file.engines.directory;
      fallback = file.engines.fallback;
    };
    whitelist = record cfg.whitelist {
      geosite_url = file.whitelist.geosite_url;
      update_interval = file.whitelist.update_interval;
      bypass_domains = file.whitelist.bypass_domains;
    };
    profiles = file.profiles;
    health_check = record cfg.health_check {
      interval = file.health_check.interval;
      url = file.health_check.url;
    };
  }

or_text-IsText : (d s : String) → IsText d s (or_text d s)
or_text-IsText d s = elim (Bool-cases (s == "")) [
  | inl e ↦ rw e (inl ((eq_iff s "").0 e, refl))
  | inr e ↦ rw e (inr (λ same. cc (sym e ∙ (eq_iff s "").1 same), refl))
]

or_int-IsPort : (d n : ℤ) → IsPort d n (or_int d n)
or_int-IsPort d n = elim (Bool-cases (n == pos 0)) [
  | inl e ↦ rw e (inl ((int_eq.test_iff n (pos 0)).0 e, refl))
  | inr e ↦ rw e (inr (λ same. cc (sym e ∙ (int_eq.test_iff n (pos 0)).1 same), refl))
]

or_list-IsFilled : (d s : List String) → IsFilled [] d s (or_list d s)
or_list-IsFilled d [] = inl (refl, refl)
or_list-IsFilled d (x ∷ xs) = inr (λ e. ground (arith, e), refl)

is_empty-cases :
    (xs : List String) → (is_empty xs ≡ true) × (xs ≡ []) ⊎ (is_empty xs ≡ false) × (xs ≢ [])
is_empty-cases [] = inl (refl, refl)
is_empty-cases (x ∷ xs) = inr (refl, λ e. ground (arith, e))

default_fallback-IsFallback : (f : FallbackConfig) → IsFallback f (default_fallback f)
default_fallback-IsFallback f = elim (Bool-cases f.enabled) [
  | inl up ↦ rw up (inr (inl refl, refl))
  | inr down ↦ elim (is_empty-cases f.order) [
    | inl (e, bare) ↦ rw (down, e) (inl (refl, bare, refl, refl, refl))
    | inr (e, filled) ↦ rw (down, e) (inr (inr filled, refl))
  ]
]

module _ (engine_dir profile_dir : String) where
  -- Loading keeps each value that the file sets, and puts the default for each that it leaves at its
  -- zero: the address and the ports to listen on, the DNS servers, the directories, the active group,
  -- the address and interval of updates and of the check of health. The fallback between engines is
  -- on, with its default order, where the file has it off and without an order, and as in the file
  -- else. The bypass domains are those of the file that are not empty, in order, and every other field
  -- is that of the file.
  pub load-IsLoaded :
      (cfg : Config) → IsLoaded engine_dir profile_dir cfg (load engine_dir profile_dir cfg)
  unfolding load validate_bypass_domains apply_defaults
  load-IsLoaded cfg = record {
    listen = or_text-IsText "0.0.0.0" cfg.server.listen;
    api_port = or_int-IsPort (pos 8080) cfg.server.api_port;
    dns_port = or_int-IsPort (pos 53) cfg.server.dns_port;
    socks_port = or_int-IsPort (pos 2801) cfg.server.socks_port;
    dns_upstream = or_list-IsFilled _ cfg.gateway.dns_upstream;
    engines = or_text-IsText engine_dir cfg.engines.directory;
    fallback = default_fallback-IsFallback cfg.engines.fallback;
    active_group = or_text-IsText "default" cfg.profiles.active_group;
    profiles = or_text-IsText profile_dir cfg.profiles.directory;
    update_interval = or_text-IsText "24h" cfg.whitelist.update_interval;
    geosite_url = or_text-IsText _ cfg.whitelist.geosite_url;
    interval = or_text-IsText "60s" cfg.health_check.interval;
    health_url = or_text-IsText "http://ip-api.com/json" cfg.health_check.url;
    bypass_domains = refl;
    others = refl;
  }

  or_text-or_text : (d s : String) → or_text d (or_text d s) ≡ or_text d s
  or_text-or_text d s = ground arith

  or_int-or_int : (d n : ℤ) → or_int d (or_int d n) ≡ or_int d n
  or_int-or_int d n = ground arith

  or_list-or_list : (d s : List String) → or_list d (or_list d s) ≡ or_list d s
  or_list-or_list [] [] = refl
  or_list-or_list (x ∷ xs) [] = refl
  or_list-or_list d (y ∷ ys) = refl

  fallback-fallback :
      (f : FallbackConfig) → default_fallback (default_fallback f) ≡ default_fallback f
  fallback-fallback f = elim (Bool-cases (not f.enabled && is_empty f.order)) [
    | inl e ↦ rw e refl
    | inr e ↦ rw e (rw e refl)
  ]

  select-select_self :
      (ds : List String)
      → select (λ d. not (d == "")) (select (λ d. not (d == "")) ds)
        ≡ select (λ d. not (d == "")) ds
  unfolding select
  select-select_self [] = refl
  select-select_self (d ∷ ds) = elim (Bool-cases (d == "")) [
    | inl e ↦ rw e (select-select_self ds)
    | inr e ↦ rw e (rw e (ap (λ xs. d ∷ xs) (select-select_self ds)))
  ]

  -- Loading a configuration that was loaded leaves it as it is.
  load-load :
      (cfg : Config)
      → load engine_dir profile_dir (load engine_dir profile_dir cfg)
        ≡ load engine_dir profile_dir cfg
  unfolding load validate_bypass_domains apply_defaults
  load-load cfg = λ i. record {
    server = record cfg.server {
      listen = or_text-or_text "0.0.0.0" cfg.server.listen i;
      api_port = or_int-or_int (pos 8080) cfg.server.api_port i;
      dns_port = or_int-or_int (pos 53) cfg.server.dns_port i;
      socks_port = or_int-or_int (pos 2801) cfg.server.socks_port i;
    };
    gateway = record cfg.gateway {
      dns_upstream = or_list-or_list ("1.1.1.1" ∷ "8.8.8.8" ∷ []) cfg.gateway.dns_upstream i;
    };
    engines = record cfg.engines {
      directory = or_text-or_text engine_dir cfg.engines.directory i;
      fallback = fallback-fallback cfg.engines.fallback i;
    };
    whitelist = record cfg.whitelist {
      geosite_url =
          or_text-or_text
            "https://github.com/SagerNet/sing-geosite/releases/latest/download/geosite-{country}.srs"
            cfg.whitelist.geosite_url i;
      update_interval = or_text-or_text "24h" cfg.whitelist.update_interval i;
      bypass_domains = select-select_self cfg.whitelist.bypass_domains i;
    };
    profiles = record {
      active_group = or_text-or_text "default" cfg.profiles.active_group i;
      directory = or_text-or_text profile_dir cfg.profiles.directory i;
    };
    health_check = record cfg.health_check {
      interval = or_text-or_text "60s" cfg.health_check.interval i;
      url = or_text-or_text "http://ip-api.com/json" cfg.health_check.url i;
    };
  }
