-- ===== src/Gateway/Engines/Running.antt =====
-- Which engines run when a start is over.
use bypath.Base.{
  ℕ, nat_eq, Bool, true, false, not, ◌||◌, ◌==◌, if◌then◌else◌, List, [], ◌∷◌, ◌++◌, map, none,
  some, select, ◌≡◌, ◌⊎◌, inl, inr, refl, sym, ap, ◌∙◌, Bool-cases, Result-cases,
}
use bypath.Profile.{Link}
use bypath.Profile.Store.{set_active_link, get_group}
use bypath.Engine.Fallback.{start_with_fallback}
use bypath.Engine.Fallback.Leaves.{processes_of-Leaves}
use bypath.Gateway.Engines.{
  Gateway, System, start_engine, drop_engine, connects, checked, start_engine_with_engine_fallback,
  is_candidate, try_links, links_of, fallback_group, start_engine_with_link_fallback,
  with_native_tun, restart_engine_as_legacy, start_engine_with_fallback, preferred_name,
}

-- No engine runs, and the gateway holds none.
pub record IsIdle (gw : Gateway) : Type 0 where
  pub embedded : gw.embedded ≡ none
  pub engine_proc : gw.engine_proc ≡ none
  pub alive : gw.alive ≡ []
  pub going : gw.cancelled ≡ false

-- Run `n` of an engine is the only one, and the gateway holds it, as the embedded engine or as the process.
pub record Holds (gw : Gateway) (n : ℕ) : Type 0 where
  pub held :
      ((gw.embedded ≡ some n) × (gw.engine_proc ≡ none))
      ⊎ ((gw.embedded ≡ none) × (gw.engine_proc ≡ some n))
  pub alive : gw.alive ≡ n ∷ []
  pub going : gw.cancelled ≡ false

module _ (sys : System) where
  -- How a start ends: with one engine, behind which a check of the connection has passed, or with none.
  pub data Ends : Gateway × Bool → Type 0 where
    up : {gw : Gateway} (n i : ℕ) → Holds gw n → connects sys n i gw ≡ true → Ends (gw, true)
    down : {gw : Gateway} → IsIdle gw → Ends (gw, false)

  data Started (n : ℕ) : Gateway × Bool → Type 0 where
    runs : {gw : Gateway} → Holds gw n → Started n (gw, true)
    fails : {gw : Gateway} → IsIdle gw → Started n (gw, false)

  -- the runs of engines, with the processes that a start leaves
  abbrev left_alive : Gateway → List ℕ → List ℕ
  left_alive gw left = map (λ i. gw.starts) left ++ gw.alive

  start_engine-Started :
      (link : Link) {gw : Gateway} → IsIdle gw → Started gw.starts (start_engine sys link gw)
  unfolding start_engine
  start_engine-Started link {gw} idle =
      let leaves =
        processes_of-Leaves gw.config.engines.fallback (sys.launch gw.starts) link
          gw.config.engines.preferred_engine in
      elim (Bool-cases (sys.embedded_starts gw.starts (preferred_name gw.config) link)) [
        | inl e ↦
            rw (e, start_engine)
              (runs (record {
                held = inl (refl, idle.engine_proc);
                alive = ap (λ l. gw.starts ∷ l) idle.alive;
                going = idle.going;
              }))
        | inr e ↦
            elim (Result-cases (
              start_with_fallback gw.config.engines.fallback (sys.launch gw.starts) link
                gw.config.engines.preferred_engine)) [
                  | inl (result, s) ↦
                      rw (e, start_engine)
                        (rw s (
                          runs (record {
                            held = inr (idle.embedded, refl);
                            alive =
                                ap (left_alive gw) (rw s at leaves).1
                                ∙ ap (λ l. gw.starts ∷ l) idle.alive;
                            going = idle.going;
                          })))
                  | inr (failure, s) ↦
                      rw (e, start_engine)
                        (rw s (
                          fails (record {
                            embedded = idle.embedded;
                            engine_proc = idle.engine_proc;
                            alive = ap (left_alive gw) (rw s at leaves) ∙ idle.alive;
                            going = idle.going;
                          })))
                ]
      ]

  stopped_only : (n : ℕ) (alive : List ℕ) → alive ≡ n ∷ [] → select (λ m. not (m == n)) alive ≡ []
  unfolding select
  stopped_only n alive e = rw e (rw ((nat_eq.test_iff n n).1 refl) refl)

  drop_engine-Holds : {gw : Gateway} {n : ℕ} → Holds gw n → IsIdle (drop_engine sys gw)
  unfolding drop_engine
  drop_engine-Holds {gw} {n} h = elim h.held [
    | inl (e, p) ↦
        rw (e, drop_engine)
          (record {
            embedded = refl;
            engine_proc = p;
            alive = stopped_only n gw.alive h.alive;
            going = h.going;
          })
    | inr (e, p) ↦
        rw (e, drop_engine)
          (rw p (record {
            embedded = e;
            engine_proc = refl;
            alive = stopped_only n gw.alive h.alive;
            going = h.going;
          }))
  ]

  drop_engine-IsIdle : {gw : Gateway} → IsIdle gw → IsIdle (drop_engine sys gw)
  unfolding drop_engine
  drop_engine-IsIdle {gw} h = rw (h.embedded, drop_engine) (rw h.engine_proc h)

  Ends-if :
      (b : Bool) (r s : Gateway × Bool)
      → (b ≡ true → Ends r)
      → (b ≡ false → Ends s)
      → Ends (if b then r else s)
  Ends-if true r s h k = h refl
  Ends-if false r s h k = k refl

  one_of : (a b : Bool) → (a || b) ≡ true → (a ≡ true) ⊎ (b ≡ true)
  one_of true b h = inl refl
  one_of false b h = inr h

  inactive : {gw : Gateway} → IsIdle gw → IsIdle (record gw { active_engine = "" })
  inactive i = record {
    embedded = i.embedded;
    engine_proc = i.engine_proc;
    alive = i.alive;
    going = i.going;
  }

  checked-Ends : (n : ℕ) {gw : Gateway} → Holds gw n → Ends (checked sys n gw)
  unfolding checked
  checked-Ends n {gw} h = Ends-if (connects sys n 0 gw) _ _ (up n 0 h) (λ no_first.
      Ends-if gw.cancelled _ _ (λ c. cc (sym h.going ∙ c))
        (λ going.
          Ends-if (connects sys n 1 gw || connects sys n 2 gw) _ _
            (λ later. elim (one_of _ _ later) [
              | inl second ↦ up n 1 h second
              | inr third ↦ up n 2 h third
            ])
            (λ none_left. down (inactive (drop_engine-Holds h)))))

  after_start :
      (n : ℕ) {r : Gateway × Bool}
      → Started n r
      → Ends (if r.1 then checked sys n r.0 else (r.0, false))
  after_start n (runs h) = checked-Ends n h
  after_start n (fails i) = down i

  start_engine_with_engine_fallback-Ends :
      (link : Link) {gw : Gateway}
      → IsIdle gw
      → Ends (start_engine_with_engine_fallback sys link gw)
  unfolding start_engine_with_engine_fallback
  start_engine_with_engine_fallback-Ends link {gw} idle =
      after_start gw.starts (start_engine-Started link idle)

  after_link :
      (link l : Link) (ls : List Link) {r : Gateway × Bool}
      → ((gw : Gateway) → IsIdle gw → Ends (try_links sys link ls gw))
      → Ends r
      → Ends (
          if r.1
          then (record r.0 { profiles = set_active_link sys.write l r.0.profiles }, true)
          else try_links sys link ls r.0)
  after_link link l ls rest (up n i h c) =
      up n i (record { held = h.held; alive = h.alive; going = h.going }) c
  after_link link l ls rest (down {gw} d) = rest gw d

  try_links-Ends :
      (link : Link) (ls : List Link) (gw : Gateway) → IsIdle gw → Ends (try_links sys link ls gw)
  unfolding try_links
  try_links-Ends link [] gw idle = down idle
  try_links-Ends link (l ∷ ls) gw idle = elim (Bool-cases (is_candidate sys link l)) [
    | inr skip ↦ rw (skip, try_links) (try_links-Ends link ls gw idle)
    | inl candidate ↦
        rw (candidate, try_links)
          (after_link link l ls (λ g. try_links-Ends link ls g)
            (start_engine_with_engine_fallback-Ends l idle))
  ]

  start_engine_with_link_fallback-Ends :
      (link : Link) {gw : Gateway} → IsIdle gw → Ends (start_engine_with_link_fallback sys link gw)
  unfolding start_engine_with_link_fallback
  start_engine_with_link_fallback-Ends link {gw} idle =
      after_first (start_engine_with_engine_fallback-Ends link idle)
    where
      after_first :
          {r : Gateway × Bool}
          → Ends r
          → Ends (
              if r.1
              then (r.0, true)
              else try_links sys link
                  (links_of sys (get_group (fallback_group sys link gw) r.0.profiles))
                  r.0)
      after_first (up n i h c) = up n i h c
      after_first (down {gw = g} d) = try_links-Ends link _ g d

  restart_engine_as_legacy-dropped :
      (link : Link) (gw : Gateway)
      → IsIdle (drop_engine sys gw)
      → Ends (restart_engine_as_legacy sys link gw)
  unfolding restart_engine_as_legacy
  restart_engine_as_legacy-dropped link gw idle =
      restored (start_engine_with_link_fallback-Ends link (legacy idle))
    where
      legacy :
          {g : Gateway}
          → IsIdle g
          → IsIdle (record g { config = with_native_tun sys false gw.config; native_tun = false })
      legacy d = record {
        embedded = d.embedded;
        engine_proc = d.engine_proc;
        alive = d.alive;
        going = d.going;
      }

      restored :
          {r : Gateway × Bool}
          → Ends r
          → Ends (
            record r.0 { config = with_native_tun sys gw.config.gateway.native_tun r.0.config },
            r.1,
          )
      restored (up n i h c) = up n i (record { held = h.held; alive = h.alive; going = h.going }) c
      restored (down d) = down (record {
        embedded = d.embedded;
        engine_proc = d.engine_proc;
        alive = d.alive;
        going = d.going;
      })

  restart_engine_as_legacy-Ends :
      (link : Link) {gw : Gateway} → IsIdle gw → Ends (restart_engine_as_legacy sys link gw)
  restart_engine_as_legacy-Ends link idle =
      restart_engine_as_legacy-dropped link _ (drop_engine-IsIdle idle)

  pub restart_engine_as_legacy-Holds :
      (link : Link) {gw : Gateway} {n : ℕ}
      → Holds gw n
      → Ends (restart_engine_as_legacy sys link gw)
  restart_engine_as_legacy-Holds link h =
      restart_engine_as_legacy-dropped link _ (drop_engine-Holds h)

  without_tun : {gw : Gateway} → IsIdle gw → IsIdle (record gw { native_tun = false })
  without_tun d = record {
    embedded = d.embedded;
    engine_proc = d.engine_proc;
    alive = d.alive;
    going = d.going;
  }

  -- From a gateway with no engine, that has not been stopped: the start succeeds with exactly one engine
  -- running, which the gateway holds and behind which a check of the connection has passed; or it fails
  -- with none running. So no engine that was tried on the way, for whatever link and mode, is left.
  pub start_engine_with_fallback-Ends :
      (link : Link) (gw : Gateway) → IsIdle gw → Ends (start_engine_with_fallback sys link gw)
  unfolding start_engine_with_fallback
  start_engine_with_fallback-Ends link gw idle =
      Ends-if (not gw.config.gateway.native_tun) _ _
        (λ off. start_engine_with_link_fallback-Ends link (without_tun idle))
        (λ on. tun (start_engine_with_link_fallback-Ends link idle))
    where
      again :
          {r : Gateway × Bool}
          → Ends r
          → Ends (
              if r.1
              then (r.0, true)
              else restart_engine_as_legacy sys link (record r.0 { native_tun = false }))
      again (up n i h c) = up n i h c
      again (down d) = restart_engine_as_legacy-Ends link (without_tun d)

      tun :
          {r : Gateway × Bool}
          → Ends r
          → Ends (
              if r.1
              then (r.0, true)
              else if not sys.is_full
              then restart_engine_as_legacy sys link (record r.0 { native_tun = false })
              else if r.0.cancelled
              then (r.0, false)
              else if (start_engine_with_link_fallback sys link r.0).1
              then ((start_engine_with_link_fallback sys link r.0).0, true)
              else restart_engine_as_legacy sys link
                  (record (start_engine_with_link_fallback sys link r.0).0 { native_tun = false }))
      tun (up n i h c) = up n i h c
      tun (down d) =
          Ends-if (not sys.is_full) _ _ (λ lite. restart_engine_as_legacy-Ends link (without_tun d))
            (λ full.
              Ends-if _ _ _ (λ c. down d)
                (λ going. again (start_engine_with_link_fallback-Ends link d)))
