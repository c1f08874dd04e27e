-- ===== src/Gateway/Life/Stopped.antt =====
-- That `Stop` leaves nothing of what `Start` has started, or panics.
use bypath.Base.{
  ℕ, suc, nat_eq, Bool, true, false, not, ◌&&◌, if◌then◌else◌, [], ◌++◌, Option, none, some, ◌≡◌,
  ◌⊎◌, inl, inr, refl, sym, ap, ◌∙◌, subst, arith,
}
use bypath.Profile.{Link}
use bypath.Profile.Store as Store
use bypath.Gateway.Engines.{Gateway, System, restart_engine_as_legacy}
use bypath.Gateway.Engines.Running.{
  IsIdle, Holds, Ends, up, down, start_engine_with_fallback-Ends, restart_engine_as_legacy-Holds,
}
use bypath.Gateway.Life.{
  Life, Host, Command, process, start_builtin_dns, dropped, drop_dns, start_dns, start_tun,
  start_engines, start_services, serve, start_for, start, stop, alive_with, launched, with_dns,
}
use bypath.Gateway.Life.Tidy.{StopEnds, pids, Apart, IsTidy, stop-IsTidy}

-- Nothing has been started.
pub record IsFresh (l : Life) : Type 0 where
  pub idle : IsIdle l.gateway
  pub dns_proc : l.dns_proc ≡ none
  pub tun_proc : l.tun_proc ≡ none
  pub dns_builtin : l.dns_builtin ≡ false
  pub children : l.children ≡ []

module _ (sys : System) (host : Host) where
  -- with no command for the TUN device yet
  record IsServed (l : Life) : Type 0 where
    engine : ((n : ℕ) × Holds l.gateway n) ⊎ IsIdle l.gateway
    tun_proc : l.tun_proc ≡ none
    children : l.children ≡ pids l.dns_proc
    older : Apart (some (process l.next)) l.dns_proc

  launched-pids : (b : Bool) (n : ℕ) → alive_with b n [] ≡ pids (some (launched b n))
  launched-pids true n = refl
  launched-pids false n = refl

  launched-Apart : (b : Bool) (n : ℕ) → Apart (some (process (suc n))) (some (launched b n))
  launched-Apart true n = ground arith
  launched-Apart false n = tt

  record IsBare (l : Life) : Type 0 where
    engine : ((n : ℕ) × Holds l.gateway n) ⊎ IsIdle l.gateway
    dns_proc : l.dns_proc ≡ none
    tun_proc : l.tun_proc ≡ none
    children : l.children ≡ []

  with_dns-IsServed : (b : Bool) (l : Life) → IsBare l → IsServed (with_dns b l)
  with_dns-IsServed b l h = record {
    engine = h.engine;
    tun_proc = h.tun_proc;
    children = rw h.children (launched-pids b l.next);
    older = launched-Apart b l.next;
  }

  IsServed-bare : (l : Life) → IsBare l → IsServed l
  IsServed-bare l h = record {
    engine = h.engine;
    tun_proc = h.tun_proc;
    children = h.children ∙ sym (ap pids h.dns_proc);
    older = subst (Apart (some (process l.next))) (sym h.dns_proc) tt;
  }

  drop_dns-bare : (l : Life) → l.dns_proc ≡ none → drop_dns l ≡ l
  unfolding drop_dns dropped
  drop_dns-bare l e = ap (λ o. dropped o l) e

  either : (P : Life → Type 0) (b : Bool) (r s : Life) → P r → P s → P (if b then r else s)
  either P true r s h k = h
  either P false r s h k = k

  builtin-IsServed : (l : Life) → IsBare l → IsServed (start_builtin_dns sys host l)
  unfolding start_builtin_dns
  builtin-IsServed l h =
      let s = IsServed-bare l h in
      record { engine = s.engine; tun_proc = s.tun_proc; children = s.children; older = s.older }

  start_dns-IsServed : (l : Life) → IsBare l → IsServed (start_dns sys host l)
  unfolding start_dns
  start_dns-IsServed l h =
      let ready = subst IsBare (sym (drop_dns-bare l h.dns_proc)) h in
      let builtin = builtin-IsServed (drop_dns l) ready in
      either IsServed _ _ _ builtin (
        either IsServed host.has_dns2socks _ _
          (with_dns-IsServed host.dns2socks_starts (drop_dns l) ready)
          (either IsServed host.has_dnsmasq _ _
            (with_dns-IsServed host.dnsmasq_starts (drop_dns l) ready) builtin))

  IsTidy-served : (l : Life) → IsServed l → IsTidy l
  IsTidy-served l h = record {
    engine = h.engine;
    children = h.children ∙ ap (λ t. pids t ++ pids l.dns_proc) (sym h.tun_proc);
    apart = subst (λ t. Apart t l.dns_proc) (sym h.tun_proc) tt;
  }

  launched-children :
      (b : Bool) (n : ℕ) (dns : Option Command)
      → alive_with b n (pids dns) ≡ pids (some (launched b n)) ++ pids dns
  launched-children true n dns = refl
  launched-children false n dns = refl

  launched-older :
      (b : Bool) (n : ℕ) (dns : Option Command)
      → Apart (some (process n)) dns
      → Apart (some (launched b n)) dns
  launched-older true n dns h = h
  launched-older false n dns h = tt

  either_first :
      (b : Bool) (r s : Life × Bool) → IsTidy r.0 → IsTidy s.0 → IsTidy (if b then r else s).0
  either_first true r s h k = h
  either_first false r s h k = k

  start_tun-IsTidy : (l : Life) → IsServed l → IsTidy (start_tun sys host l).0
  unfolding start_tun
  start_tun-IsTidy l h =
      let plain = IsTidy-served l h in
      either_first (not host.has_tun2socks) _ _ plain (
        either_first (not host.device_made) _ _ plain (record {
          engine = h.engine;
          children =
              ap (alive_with host.tun2socks_starts l.next) h.children
              ∙ launched-children host.tun2socks_starts l.next l.dns_proc;
          apart = launched-older host.tun2socks_starts l.next l.dns_proc h.older;
        }))

  start_services-IsTidy : (l : Life) → IsBare l → IsTidy (start_services sys host l)
  unfolding start_services
  start_services-IsTidy l h =
      let served = start_dns-IsServed l h in
      either IsTidy l.gateway.native_tun _ _ (IsTidy-served l (IsServed-bare l h)) (
        either IsTidy l.gateway.config.gateway.enabled _ _
          (start_tun-IsTidy (start_dns sys host l) served)
          (IsTidy-served (start_dns sys host l) served))

  -- how a start of the engines ends
  abbrev Engines : Gateway × Bool → Type 0
  Engines r = ((n : ℕ) × Holds r.0 n) ⊎ IsIdle r.0

  Ends-Engines : {r : Gateway × Bool} → Ends sys r → Engines r
  Ends-Engines (up n i h c) = inl (n, h)
  Ends-Engines (down d) = inr d

  start_engines-Engines :
      (link : Link) (gw : Gateway) → IsIdle gw → Engines (start_engines sys host link gw)
  unfolding start_engines
  start_engines-Engines link gw idle = older_mode (start_engine_with_fallback-Ends sys link gw idle)
    where
      one : (b : Bool) (r s : Gateway × Bool) → Engines r → Engines s → Engines (if b then r else s)
      one true r s h k = h
      one false r s h k = k

      older_mode :
          {r : Gateway × Bool}
          → Ends sys r
          → Engines (
              if not r.1
              then (r.0, false)
              else if r.0.native_tun && not host.tun_appears
              then restart_engine_as_legacy sys link r.0
              else (r.0, true))
      older_mode (up {gw} n i h c) =
          one (gw.native_tun && not host.tun_appears) _ _
            (Ends-Engines (restart_engine_as_legacy-Holds sys link h)) (inl (n, h))
      older_mode (down d) = inr d

  with_profiles :
      (l : Life) (m : Store.Manager) → IsFresh l → IsIdle (record l.gateway { profiles = m })
  with_profiles l m fresh = record {
    embedded = fresh.idle.embedded;
    engine_proc = fresh.idle.engine_proc;
    alive = fresh.idle.alive;
    going = fresh.idle.going;
  }

  bare :
      (l : Life) (gw : Gateway)
      → IsFresh l
      → ((n : ℕ) × Holds gw n) ⊎ IsIdle gw
      → IsBare (record l { gateway = gw })
  bare l gw fresh engine = record {
    engine = engine;
    dns_proc = fresh.dns_proc;
    tun_proc = fresh.tun_proc;
    children = fresh.children;
  }

  IsTidy-bare : (l : Life) → IsBare l → IsTidy l
  IsTidy-bare l h = IsTidy-served l (IsServed-bare l h)

  serve-IsTidy :
      (r : Gateway × Bool) (l : Life) → IsFresh l → Engines r → IsTidy (serve sys host r l).0
  unfolding serve
  serve-IsTidy (gw, true) l fresh e = start_services-IsTidy _ (bare l gw fresh e)
  serve-IsTidy (gw, false) l fresh e = IsTidy-bare _ (bare l gw fresh e)

  start_for-IsTidy :
      (link : Option Link) (gw : Gateway) (l : Life)
      → IsFresh l
      → IsIdle gw
      → IsTidy (start_for sys host link gw l).0
  unfolding start_for
  start_for-IsTidy none gw l fresh idle = IsTidy-bare _ (bare l gw fresh (inr idle))
  start_for-IsTidy (some link) gw l fresh idle =
      serve-IsTidy (start_engines sys host link gw) l fresh (start_engines-Engines link gw idle)

  start-IsTidy : (l : Life) → IsFresh l → IsTidy (start sys host l).0
  unfolding start
  start-IsTidy l fresh =
      either_first host.has_network _ _ (start_for-IsTidy _ _ l fresh (with_profiles l _ fresh))
        (IsTidy-bare l (bare l l.gateway fresh (inr fresh.idle)))

  -- From a gateway that has started nothing, and has not been stopped, and whose configuration has no
  -- chain that starts by itself: whatever else of `Start` fails, `Stop` behind it leaves no engine, no
  -- process for DNS or the TUN device and no DNS server running; or it panics, exactly if a command for
  -- DNS or for the TUN device was kept that could not be started.
  pub stop-start :
      (l : Life) → IsFresh l → StopEnds (start sys host l).0 (stop (start sys host l).0)
  stop-start l fresh = stop-IsTidy (start sys host l).0 (start-IsTidy l fresh)
