-- ===== src/Gateway/Life/Tests.antt =====
-- Starts of the gateway on concrete systems, and the theorems about them.
use bypath.Base.{
  pos, string_eq, true, false, [], ◌∷◌, none, some, ok, err, if◌then◌else◌, ◌==◌, ◌≡◌, refl, select,
  trim_space,
}
use bypath.Profile.{Link, Group, zero_link}
use bypath.Profile.Store as Store
use bypath.Profile.Store.{get_group, set_active_link}
use bypath.Profile.Store.Dir.{refused}
use bypath.Engine.Fallback.{
  Launch, start_with_fallback, engine_order, attempts_from, try_engine, processes_of,
  processes_from, processes_behind, start_process,
}
use bypath.Gateway.Samples.{sample}
use bypath.Gateway.Connectivity.{
  Curl, verify_connection, reaches_internet, has_code, verify_whitelist_routing,
}
use bypath.Gateway.Engines.{
  Gateway, System, start_engine_with_fallback, start_engine_with_link_fallback,
  start_engine_with_engine_fallback, start_engine, checked, preferred_name,
}
use bypath.Gateway.Engines.Running.{IsIdle, Ends, start_engine_with_fallback-Ends}
use bypath.Gateway.Life.{
  Life, Host, start, stop, kill_both, kill, start_for, serve, start_services, start_tun, start_dns,
  drop_dns, dropped, start_engines, active_link,
}
use bypath.Gateway.Life.Tidy.{StopEnds}
use bypath.Gateway.Life.Stopped.{IsFresh, stop-start}

-- xray alone is installed, and every check passes
abbrev only_xray : Launch
only_xray = record {
  get = λ name.
      if name == "xray" then ok (record { name = "xray"; path = "/bin/xray" }) else err "missing";
  generate = λ eng link. ok "config.json";
  start = λ path args. ok path;
  port_opens = λ proc. true;
}

abbrev online : Curl
online = record { code = λ url. some "204" }

abbrev lite : System
lite = record {
  embedded_starts = λ n name link. false;
  launch = λ n i. only_xray;
  curl = λ n i. online;
  write = refused;
  is_full = false;
}

abbrev entry : Link
entry = record zero_link {
  remark = "a";
  protocol = "vless";
  address = "vpn.example";
  port = pos 443;
  group = "home";
}

abbrev home_group : Group
home_group = record { name = "home"; kind = "basic"; links = entry ∷ []; subscriptions = [] }

abbrev at_rest : Gateway
at_rest = record {
  config = sample;
  profiles = record {
    directory = [];
    groups = ("home", home_group) ∷ [];
    active_group = "home";
    active_link = some entry;
  };
  native_tun = false;
  active_engine = "";
  embedded = none;
  engine_proc = none;
  cancelled = false;
  alive = [];
  starts = 0;
}

at_rest-IsIdle : IsIdle at_rest
at_rest-IsIdle = record { embedded = refl; engine_proc = refl; alive = refl; going = refl }

start_engine_with_fallback-Ends_example : Ends lite (start_engine_with_fallback lite entry at_rest)
start_engine_with_fallback-Ends_example =
    start_engine_with_fallback-Ends lite entry at_rest at_rest-IsIdle

xray_run : (start_engine_with_fallback lite entry at_rest).0.active_engine ≡ "xray"
unfolding start_engine_with_fallback start_engine_with_link_fallback
    start_engine_with_engine_fallback start_engine checked start_with_fallback engine_order
    attempts_from try_engine processes_of processes_from processes_behind start_process
    verify_connection reaches_internet has_code verify_whitelist_routing trim_space preferred_name
xray_run = refl

-- tun2socks is found, but cannot be started
abbrev host : Host
host = record {
  groups = ("home", home_group) ∷ [];
  write = refused;
  has_network = true;
  tun_appears = false;
  builtin_listens = true;
  has_dns2socks = true;
  dns2socks_starts = true;
  has_dnsmasq = false;
  dnsmasq_starts = false;
  has_tun2socks = true;
  device_made = true;
  tun2socks_starts = false;
}

abbrev fresh : Life
fresh = record {
  gateway = at_rest;
  dns_proc = none;
  tun_proc = none;
  dns_builtin = false;
  children = [];
  next = 0;
}

fresh-IsFresh : IsFresh fresh
fresh-IsFresh = record {
  idle = at_rest-IsIdle;
  dns_proc = refl;
  tun_proc = refl;
  dns_builtin = refl;
  children = refl;
}

stop-start_example : StopEnds (start lite host fresh).0 (stop (start lite host fresh).0)
stop-start_example = stop-start lite host fresh fresh-IsFresh

stop_panics : stop (start lite host fresh).0 ≡ none
unfolding stop kill_both kill start start_for serve start_services start_tun start_dns drop_dns
    dropped start_engines active_link start_engine_with_fallback start_engine_with_link_fallback
    start_engine_with_engine_fallback start_engine checked start_with_fallback engine_order
    attempts_from try_engine processes_of processes_from processes_behind start_process
    verify_connection reaches_internet has_code verify_whitelist_routing trim_space preferred_name
    Store.get_active_link select
stop_panics = refl
