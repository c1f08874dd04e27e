-- ===== src/Tunnel/Chains/Cleaned.antt =====
-- What a chain leaves of processes when its start fails, and when it is stopped.
use bypath.Base.{
  arith, ℕ, String, string_eq, nat_eq, true, not, List, [], ◌∷◌, Option, none, some, Dict, ◌≡◌,
  refl, sym, ap, subst, Bool-cases, Option-cases, ◌⊎◌, inl, inr,
}
use bypath.Profile.{Link, Group}
use bypath.Tunnel.{ConfigGenerator}
use bypath.Tunnel.Chain.{generate_chain_config}
use bypath.Tunnel.Strategy.{ChainStrategy, single_process, multi_process, resolve_chain_strategy}
use bypath.Tunnel.Manager.{running, Processes, Manager, Outcome, spawn}
use bypath.Tunnel.Manager.Held.{is_loose}
use bypath.Tunnel.Chains.{
  Chain, ChainManager, ChainConfig, ChainError, Started, chain_is_running, kept_as, start_single,
  start_chain_single_process, kept_chain, start_chain, stop_chain,
}
use bypath.Tunnel.Chains.Starts.{IsNumbered, lookup-own}
use bypath.Tunnel.Chains.Owned.{
  AsLoose, AsLoose-IsNumbered, Owns, Ended, all_started, given_up, stop_chain_hops-others,
  Owns-spawn, start_hops-Ended,
}

-- How the start of a chain ends: with an error, and the processes that ran unstopped before; or the
-- chain runs, and when it is stopped there are those processes again.
pub data ChainEnds (before : Processes) (name : String)
    : ChainManager × Option ChainError → Type 0 where
  refused :
      {m : ChainManager} {e : ChainError} → AsLoose before m → ChainEnds before name (m, some e)
  runs :
      {m : ChainManager}
      → chain_is_running name m.chains ≡ true
      → (stop_chain name m).1 ≡ none
      → AsLoose before (stop_chain name m).0
      → ChainEnds before name (m, none)

-- and the processes are numbered
abbrev Ends : Processes → String → ChainManager × Option ChainError → Type 0
Ends before name r = IsNumbered r.0.tunnels.processes × ChainEnds before name r

module _ (before : Processes) (name : String) (numbered : IsNumbered before) where
  kept_as-Ends :
      (strategy : ChainStrategy) (hops : List ℕ) (m : ChainManager)
      → Owns before hops m.tunnels
      → Ends before name (kept_as name strategy hops running m, none)
  unfolding stop_chain
  kept_as-Ends strategy hops m owns =
      let chain : Chain = record {
        name = name;
        hops = hops;
        status = running;
        strategy = strategy;
      } in
      let kept = lookup-own name chain m.chains in
      (
        owns.numbered,
        runs (rw (kept, chain_is_running) refl) (rw (kept, stop_chain) refl) (λ q.
            rw (kept, stop_chain)
              (stop_chain_hops-others before hops m.tunnels owns m.tunnels (λ p. refl) q)),
      )

  kept_chain-Ends : (r : Started) → Ended before r → Ends before name (kept_chain name r)
  unfolding kept_chain
  kept_chain-Ends (m, hops, none) (all_started owns) = kept_as-Ends multi_process hops m owns
  kept_chain-Ends (m, hops, some e) (given_up same later) =
      (AsLoose-IsNumbered before m same later numbered, refused same)

module _ (cg : ConfigGenerator) (name : String) (m : ChainManager)
    (numbered : IsNumbered m.tunnels.processes) where
  unchanged :
      {n : ChainManager} {e : ChainError}
      → n.tunnels ≡ m.tunnels
      → Ends m.tunnels.processes name (n, some e)
  unchanged same = (
    subst (λ (t : Manager). IsNumbered t.processes) (sym same) numbered,
    refused (λ q. ap (λ (t : Manager). is_loose t.processes q) same),
  )

  nothing_yet : Owns m.tunnels.processes [] m.tunnels
  nothing_yet = record {
    numbered = numbered;
    later = omega arith;
    others = λ q out. refl;
    own = λ q is. cc;
  }

  start_single-Ends :
      (out : Outcome) (r : List Link × Option ℕ)
      → Ends m.tunnels.processes name (start_single cg out name r m)
  unfolding start_single
  start_single-Ends out (links, some i) = unchanged refl
  start_single-Ends out (links, none) = elim (Option-cases (generate_chain_config cg name links)) [
    | inl e ↦ rw (e, start_single) (unchanged refl)
    | inr (config, e) ↦
        rw (e, start_single)
          (elim (Bool-cases (not out.writes_config)) [
            | inl f ↦ rw f (unchanged refl)
            | inr f ↦ rw f (elim (Bool-cases (not (out.has_engine "sing-box"))) [
              | inl g ↦ rw g (unchanged refl)
              | inr g ↦ rw g (elim (Bool-cases (not out.starts)) [
                | inl h ↦ rw h (unchanged refl)
                | inr h ↦ rw h (
                    kept_as-Ends m.tunnels.processes name numbered single_process
                      (m.tunnels.processes.next ∷ [])
                      (record m {
                        tunnels = record m.tunnels { processes = spawn m.tunnels.processes };
                      })
                      (Owns-spawn m.tunnels.processes [] m.tunnels nothing_yet _ refl))
              ])
            ])
          ])
  ]

strategy-cases : (s : ChainStrategy) → (s ≡ single_process) ⊎ (s ≡ multi_process)
strategy-cases single_process = inl refl
strategy-cases multi_process = inr refl

-- From any tunnels and chains, if each process that runs unstopped has a number below the next one (which
-- stays so): a chain that fails to start leaves exactly the processes running unstopped that did before,
-- in one process and in several, whichever hop fails. A chain that starts is running, and when it is
-- stopped then, the processes that run unstopped are those of before again.
pub start_chain-Ends :
    (cg : ConfigGenerator) (order : Dict Group → List Group) (outs : ℕ → Outcome)
    (chain : ChainConfig) (m : ChainManager)
    → IsNumbered m.tunnels.processes
    → IsNumbered (start_chain cg order outs chain m).0.tunnels.processes
      × ChainEnds m.tunnels.processes chain.name (start_chain cg order outs chain m)
unfolding start_chain start_chain_single_process
start_chain-Ends cg order outs chain m numbered =
    elim (strategy-cases (resolve_chain_strategy (order m.profiles.groups) m.profiles chain.hops)) [
      | inl e ↦
          rw (e, start_chain)
            (elim (Bool-cases (chain_is_running chain.name m.chains)) [
              | inl f ↦ rw (f, start_chain_single_process) (unchanged cg chain.name m numbered refl)
              | inr f ↦
                  rw (f, start_chain_single_process)
                    (start_single-Ends cg chain.name m numbered (outs 0) _)
            ])
      | inr e ↦
          rw (e, start_chain)
            (kept_chain-Ends m.tunnels.processes chain.name numbered _ (
              start_hops-Ended order outs chain.name m.tunnels.processes 0 "" chain.hops [] m
                (nothing_yet cg chain.name m numbered)))
    ]
