-- ===== src/Gateway/Life/Tidy.antt =====
-- What `Stop` needs: that the processes which run are those of the two commands and the engine.
use bypath.Base.{
  ℕ, nat_eq, false, ◌==◌, List, [], ◌∷◌, ◌++◌, Option, none, some, select, ◌≡◌, ◌≢◌, ◌⊎◌, inl, inr,
  refl, ap, ◌∙◌,
}
use bypath.Gateway.Engines.{Gateway}
use bypath.Gateway.Engines.Running.{IsIdle, Holds}
use bypath.Gateway.Life.{
  Life, Command, unstarted, process, without, stop_engine, kill, kill_both, stop,
}

-- A command was kept although it could not be started.
abbrev pub KeepsUnstarted : Life → Type 0
KeepsUnstarted l = (l.tun_proc ≡ some unstarted) ⊎ (l.dns_proc ≡ some unstarted)

-- How `Stop` ends.
pub data StopEnds (l : Life) : Option Life → Type 0 where
  panics : KeepsUnstarted l → StopEnds l none
  clean :
      {left : Life}
      → ¬ KeepsUnstarted l
      → left.gateway.alive ≡ []
      → left.children ≡ []
      → left.dns_builtin ≡ false
      → StopEnds l (some left)

abbrev pub pids : Option Command → List ℕ
pids none = []
pids (some unstarted) = []
pids (some (process n)) = n ∷ []

abbrev pub Apart : Option Command → Option Command → Type 0
Apart (some (process t)) (some (process d)) = (d == t) ≡ false
Apart _ _ = Unit

-- The processes besides the engine are those of the two commands.
pub record IsTidy (l : Life) : Type 0 where
  pub engine : ((n : ℕ) × Holds l.gateway n) ⊎ IsIdle l.gateway
  pub children : l.children ≡ pids l.tun_proc ++ pids l.dns_proc
  pub apart : Apart l.tun_proc l.dns_proc

without_self : (n : ℕ) → without n (n ∷ []) ≡ []
unfolding select
without_self n = rw ((nat_eq.test_iff n n).1 refl) refl

stop_engine-alive :
    (gw : Gateway) → ((n : ℕ) × Holds gw n) ⊎ IsIdle gw → (stop_engine gw).alive ≡ []
unfolding stop_engine
stop_engine-alive gw (inl (n, h)) = elim h.held [
  | inl (e, p) ↦ rw (e, stop_engine) (ap (without n) h.alive ∙ without_self n)
  | inr (e, p) ↦ rw (e, stop_engine) (rw p (ap (without n) h.alive ∙ without_self n))
]
stop_engine-alive gw (inr i) = rw (i.embedded, stop_engine) (rw i.engine_proc i.alive)

without_other : (t d : ℕ) → (d == t) ≡ false → without t (t ∷ d ∷ []) ≡ d ∷ []
unfolding select
without_other t d h = rw ((nat_eq.test_iff t t).1 refl) (rw h refl)

abbrev pub IsStarted : Option Command → Type 0
IsStarted (some unstarted) = ⊥
IsStarted _ = Unit

ne_unstarted : (c : Option Command) → IsStarted c → c ≢ some unstarted
ne_unstarted none s e = cc
ne_unstarted (some unstarted) s e = s
ne_unstarted (some (process n)) s e = cc

-- what the two kills leave
data Killed (tun dns : Option Command) : Option (List ℕ) → Type 0 where
  crash : (tun ≡ some unstarted) ⊎ (dns ≡ some unstarted) → Killed tun dns none
  gone : ¬ ((tun ≡ some unstarted) ⊎ (dns ≡ some unstarted)) → Killed tun dns (some [])

Killed-clean : (tun dns : Option Command) → IsStarted tun → IsStarted dns → Killed tun dns (some [])
Killed-clean tun dns t d =
    gone (λ e. elim e [ inl u ↦ ne_unstarted tun t u | inr u ↦ ne_unstarted dns d u ])

kill_both-Killed :
    (tun dns : Option Command)
    → Apart tun dns
    → Killed tun dns (kill_both tun dns (pids tun ++ pids dns))
unfolding kill_both kill
kill_both-Killed none none a = Killed-clean none none tt tt
kill_both-Killed none (some unstarted) a = crash (inr refl)
kill_both-Killed none (some (process d)) a =
    rw (without_self d) (Killed-clean none (some (process d)) tt tt)
kill_both-Killed (some unstarted) dns a = crash (inl refl)
kill_both-Killed (some (process t)) none a =
    rw (without_self t) (Killed-clean (some (process t)) none tt tt)
kill_both-Killed (some (process t)) (some unstarted) a = crash (inr refl)
kill_both-Killed (some (process t)) (some (process d)) a =
    rw (without_other t d a)
      (rw (without_self d) (Killed-clean (some (process t)) (some (process d)) tt tt))

stop-Killed :
    (l : Life) {r : Option (List ℕ)}
    → ((n : ℕ) × Holds l.gateway n) ⊎ IsIdle l.gateway
    → kill_both l.tun_proc l.dns_proc l.children ≡ r
    → Killed l.tun_proc l.dns_proc r
    → StopEnds l (stop l)
unfolding stop
stop-Killed l engine e (crash why) = rw (e, stop) (panics why)
stop-Killed l engine e (gone started) =
    rw (e, stop) (clean started (stop_engine-alive l.gateway engine) refl refl)

pub stop-IsTidy : (l : Life) → IsTidy l → StopEnds l (stop l)
stop-IsTidy l h =
    stop-Killed l h.engine (ap (kill_both l.tun_proc l.dns_proc) h.children)
      (kill_both-Killed l.tun_proc l.dns_proc h.apart)
