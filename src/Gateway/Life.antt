-- ===== src/Gateway/Life.antt =====
-- `Start` and `Stop` of internal/gateway/gateway.go, with `getActiveLink`, `startDNS` and `startTun`: which
-- processes the gateway starts and stops. What it changes of the network stands in other modules.
pub mod Tidy
pub mod Stopped
mod Tests
use bypath.Base.{
  ℕ, suc, pos, String, string_eq, nat_eq, Bool, true, false, not, ◌&&◌, ◌||◌, ◌==◌, if◌then◌else◌,
  List, [], ◌∷◌, Option, none, some, select, Dict,
}
use bypath.Base.Int.{ltb_ℤ}
use bypath.Profile.{Link, Group}
use bypath.Profile.Store as Store
use bypath.Profile.Store.{set_active_link}
use bypath.Profile.Store.Dir.{Write}
use bypath.Gateway.Engines.{
  Gateway, System, start_engine_with_fallback, restart_engine_as_legacy, drop_engine,
}

-- `exec.Cmd`: there is no process until `Start` succeeds
pub data Command : Type 0 where
  unstarted : Command
  process : ℕ → Command

-- The gateway with the commands for DNS and the TUN device, whether the built-in DNS servers run, the
-- processes besides the engine that run, and the number of the next one.
pub record Life : Type 0 where
  pub gateway : Gateway
  pub dns_proc : Option Command
  pub tun_proc : Option Command
  pub dns_builtin : Bool
  pub children : List ℕ
  pub next : ℕ

-- What the system does besides: whether the network is found, the TUN device of sing-box appears, the
-- built-in DNS servers can listen; whether dns2socks and dnsmasq are found and start; whether tun2socks
-- is found, the device can be made, and it starts. The groups stand in the order of `ListGroups`.
pub record Host : Type 0 where
  pub groups : Dict Group
  pub write : Write
  pub has_network : Bool
  pub tun_appears : Bool
  pub builtin_listens : Bool
  pub has_dns2socks : Bool
  pub dns2socks_starts : Bool
  pub has_dnsmasq : Bool
  pub dnsmasq_starts : Bool
  pub has_tun2socks : Bool
  pub device_made : Bool
  pub tun2socks_starts : Bool

-- the test of `getActiveLink` for a link that is no mere notice
abbrev pub is_testable : Link → Bool
is_testable l = not (ltb_ℤ l.port (pos 10)) && not (l.address == "") && not (l.address == "0.0.0.0")

unfoldable pub first_testable : List Link → Option Link
first_testable [] = none
first_testable (l ∷ ls) = let rest = first_testable ls in if is_testable l then some l else rest

unfoldable pub first_in_groups : Dict Group → Option Link
first_in_groups [] = none
first_in_groups ((name, g) ∷ groups) = elim (first_testable g.links) [
  | none ↦ first_in_groups groups
  | some l ↦ some l
]

-- a command for which `Start` was called
abbrev pub launched : Bool → ℕ → Command
launched starts n = if starts then process n else unstarted

abbrev pub alive_with : Bool → ℕ → List ℕ → List ℕ
alive_with starts n children = if starts then n ∷ children else children

abbrev pub without : ℕ → List ℕ → List ℕ
without n children = select (λ m. not (m == n)) children

-- the DNS command of an earlier start is killed, if it has a process
unfoldable pub dropped : Option Command → Life → Life
dropped none l = l
dropped (some unstarted) l = l
dropped (some (process n)) l = record l { dns_proc = none; children = without n l.children }

unfoldable pub drop_dns : Life → Life
drop_dns l = dropped l.dns_proc l

-- a DNS command started
abbrev pub with_dns : Bool → Life → Life
with_dns starts l = record l {
  dns_proc = some (launched starts l.next);
  children = alive_with starts l.next l.children;
  next = suc l.next;
}

module _ (sys : System) (host : Host) where
  -- `getActiveLink`: the link, and the profiles, in which another one may have become active
  unfoldable pub active_link : Store.Manager → Store.Manager × Option Link
  active_link m = elim (Store.get_active_link m) [
    | some l ↦ (m, some l)
    | none ↦ elim (first_in_groups host.groups) [
      | none ↦ (m, none)
      | some l ↦ (set_active_link host.write l m, some l)
    ]
  ]

  unfoldable pub start_builtin_dns : Life → Life
  start_builtin_dns l = record l { dns_builtin = host.builtin_listens || l.dns_builtin }

  -- `startDNS`; its error is only logged
  unfoldable pub start_dns : Life → Life
  start_dns l =
      let ready = drop_dns l in
      let local = l.gateway.config.gateway.local_dns in
      if elim local [ [] ↦ false | _ ∷ _ ↦ true ]
      then start_builtin_dns ready
      else if host.has_dns2socks
      then with_dns host.dns2socks_starts ready
      else if host.has_dnsmasq
      then with_dns host.dnsmasq_starts ready
      else start_builtin_dns ready

  -- `startTun`; whether there is no error
  unfoldable pub start_tun : Life → Life × Bool
  start_tun l =
      if not host.has_tun2socks then (l, false) else if not host.device_made then (l, false) else (
        record l {
          tun_proc = some (launched host.tun2socks_starts l.next);
          children = alive_with host.tun2socks_starts l.next l.children;
          next = suc l.next;
        },
        host.tun2socks_starts,
      )

  -- the engine, and the older mode where the TUN device does not appear
  unfoldable pub start_engines : Link → Gateway → Gateway × Bool
  start_engines link gw =
      let (started, is_up) = start_engine_with_fallback sys link gw in
      if not is_up
      then (started, false)
      else if started.native_tun && not host.tun_appears
      then restart_engine_as_legacy sys link started
      else (started, true)

  -- what follows the engine: DNS and the TUN device, where sing-box does not serve them
  unfoldable pub start_services : Life → Life
  start_services l =
      let served = start_dns l in
      if l.gateway.native_tun
      then l
      else if l.gateway.config.gateway.enabled
      then (start_tun served).0
      else served

  -- the rest of `Start` behind the engine: how it was started, and whether
  unfoldable pub serve : Gateway × Bool → Life → Life × Bool
  serve (gw, true) l = (start_services (record l { gateway = gw }), true)
  serve (gw, false) l = (record l { gateway = gw }, false)

  -- the rest of `Start` for the active link, if there is one
  unfoldable pub start_for : Option Link → Gateway → Life → Life × Bool
  start_for none gw l = (record l { gateway = gw }, false)
  start_for (some link) gw l = serve (start_engines link gw) l

  -- `Start` where no chain starts by itself (`startAutoChains` is not modelled); whether there is no
  -- error
  unfoldable pub start : Life → Life × Bool
  start l =
      let (profiles, link) = active_link l.gateway.profiles in
      if host.has_network
      then start_for link (record l.gateway { profiles = profiles }) l
      else (l, false)

-- the engine is stopped; the field of a process keeps it
unfoldable pub stop_engine : Gateway → Gateway
stop_engine gw = elim gw.embedded [
  | some n ↦ record gw { embedded = none; alive = without n gw.alive }
  | none ↦ elim gw.engine_proc [ some n ↦ record gw { alive = without n gw.alive } | none ↦ gw ]
]

-- `cmd.Process.Kill()`, which panics without a process
unfoldable pub kill : Option Command → List ℕ → Option (List ℕ)
kill none children = some children
kill (some unstarted) children = none
kill (some (process n)) children = some (without n children)

-- the kills of `Stop`, in their order; none is a panic
unfoldable pub kill_both : Option Command → Option Command → List ℕ → Option (List ℕ)
kill_both tun dns children = elim (kill tun children) [ none ↦ none | some left ↦ kill dns left ]

-- `Stop`; none is a panic
unfoldable pub stop : Life → Option Life
stop l = elim (kill_both l.tun_proc l.dns_proc l.children) [
  | none ↦ none
  | some children ↦ some (record l {
    gateway = record (stop_engine l.gateway) { cancelled = true };
    dns_builtin = false;
    children = children;
  })
]
