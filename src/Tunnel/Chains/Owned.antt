-- ===== src/Tunnel/Chains/Owned.antt =====
-- The processes that the start of a chain has started, and what it leaves when it gives up.
use bypath.Base.{
  arith, ℕ, suc, String, string_eq, nat_eq, Bool, true, false, not, ◌&&◌, ◌||◌, ◌==◌, List, [], ◌∷◌,
  ◌++◌, any, Option, none, some, lookup, Dict, ◌≡◌, ◌≤◌, refl, sym, ap, ◌∙◌, subst, Bool-cases,
  Option-cases, inl, inr, nat_beq_iff,
}
use bypath.Profile.{Link, Group}
use bypath.Profile.Store.{get_link}
use bypath.Tunnel.Strategy.{HopConfig}
use bypath.Tunnel.Manager.{Processes, Manager, Outcome, Error, spawn, stop_process}
use bypath.Tunnel.Manager.Held.{is_loose, spawn-loose, stop-loose}
use bypath.Tunnel.Chains.{
  ChainManager, ChainError, Started, stop_hop, stop_chain_hops, start_hops, after_start, hop_name,
  chained, listen_address,
}
use bypath.Tunnel.Chains.Starts.{
  IsNumbered, next_idle, spawn-IsNumbered, process_of-found, lookup-own, Starts, failed, made,
  start_tunnel-Starts,
}

-- a process is one of the list
abbrev pub is_in : ℕ → List ℕ → Bool
is_in q pids = any (λ p. p == q) pids

is_in-append : (q : ℕ) (xs ys : List ℕ) → is_in q (xs ++ ys) ≡ (is_in q xs || is_in q ys)
is_in-append q [] ys = refl
is_in-append q (x ∷ xs) ys = rw (is_in-append q xs ys) (ground arith)

stop_chain_hops-loose :
    (pids : List ℕ) (m : Manager) (q : ℕ)
    → is_loose (stop_chain_hops pids m).processes q ≡ (is_loose m.processes q && not (is_in q pids))
unfolding stop_chain_hops stop_hop
stop_chain_hops-loose [] m q = ground arith
stop_chain_hops-loose (pid ∷ pids) m q =
    ground
      (arith, stop-loose pid (stop_chain_hops pids m).processes q, stop_chain_hops-loose pids m q)

pub stop_chain_hops-next :
    (pids : List ℕ) (m : Manager) → (stop_chain_hops pids m).processes.next ≡ m.processes.next
unfolding stop_chain_hops stop_hop stop_process
stop_chain_hops-next [] m = refl
stop_chain_hops-next (pid ∷ pids) m =
    elim (Bool-cases (any (λ p. p == pid) (stop_chain_hops pids m).processes.active)) [
      | inl e ↦ rw e (stop_chain_hops-next pids m)
      | inr e ↦ rw e (stop_chain_hops-next pids m)
    ]

-- The processes that run unstopped are the same.
abbrev pub AsLoose : Processes → ChainManager → Type 0
AsLoose before m = (q : ℕ) → is_loose m.tunnels.processes q ≡ is_loose before q

pub AsLoose-IsNumbered :
    (before : Processes) (m : ChainManager)
    → AsLoose before m
    → before.next ≤ m.tunnels.processes.next
    → IsNumbered before
    → IsNumbered m.tunnels.processes
AsLoose-IsNumbered before m same later numbered q loose =
    ground (arith, numbered q (sym (same q) ∙ loose), later)

-- The chain has the processes that were started since.
pub record Owns (before : Processes) (hops : List ℕ) (m : Manager) : Type 0 where
  pub numbered : IsNumbered m.processes
  pub later : before.next ≤ m.processes.next
  pub others : (q : ℕ) → is_in q hops ≡ false → is_loose m.processes q ≡ is_loose before q
  pub own : (q : ℕ) → is_in q hops ≡ true → is_loose before q ≡ false

pub data Ended (before : Processes) : Started → Type 0 where
  all_started :
      {m : ChainManager} {hops : List ℕ} → Owns before hops m.tunnels → Ended before (m, hops, none)
  given_up :
      {m : ChainManager} {hops : List ℕ} {e : ChainError}
      → AsLoose before m
      → before.next ≤ m.tunnels.processes.next
      → Ended before (m, hops, some e)

module _ (before : Processes) (hops : List ℕ) (m : Manager) (owns : Owns before hops m) where
  pub stop_chain_hops-others :
      (n : Manager)
      → ((q : ℕ) → is_loose n.processes q ≡ is_loose m.processes q)
      → (q : ℕ) → is_loose (stop_chain_hops hops n).processes q ≡ is_loose before q
  stop_chain_hops-others n same q = elim (Bool-cases (is_in q hops)) [
    | inl e ↦ ground (arith, stop_chain_hops-loose hops n q, same q, e, owns.own q e)
    | inr e ↦ ground (arith, stop_chain_hops-loose hops n q, same q, e, owns.others q e)
  ]

  pub stop_chain_hops-later :
      (n : Manager)
      → m.processes.next ≤ n.processes.next
      → before.next ≤ (stop_chain_hops hops n).processes.next
  stop_chain_hops-later n more = rw (stop_chain_hops-next hops n) (ground (arith, owns.later, more))

  pub Owns-spawn :
      (n : Manager)
      → n.processes ≡ spawn m.processes
      → Owns before (hops ++ (m.processes.next ∷ [])) n
  Owns-spawn n e = record {
    numbered = subst (λ ps. IsNumbered ps) (sym e) (spawn-IsNumbered m.processes owns.numbered);
    later = subst (λ ps. before.next ≤ ps.next) (sym e) (ground (arith, owns.later));
    others = λ q out.
        ap (λ ps. is_loose ps q) e
        ∙ spawn-loose m.processes q
            (ground (arith, is_in-append q hops (m.processes.next ∷ []), out))
        ∙ owns.others q (ground (arith, is_in-append q hops (m.processes.next ∷ []), out));
    own = λ q is. elim (Bool-cases (is_in q hops)) [
      | inl mine ↦ owns.own q mine
      | inr alien ↦
          let same =
            (nat_beq_iff m.processes.next q).0
              (ground (arith, is_in-append q hops (m.processes.next ∷ []), is, alien)) in
          sym (owns.others q alien)
          ∙ subst (λ k. is_loose m.processes k ≡ false) same (next_idle m.processes owns.numbered)
    ];
  }

module _ (order : Dict Group → List Group) (outs : ℕ → Outcome) (name : String)
    (before : Processes) where
  after_start-Ended :
      (i : ℕ) (hops : List ℕ) (m : ChainManager) (r : Manager × Option Error)
      (rest : List ℕ → ChainManager → Started) (link : Link)
      → Owns before hops m.tunnels
      → Starts (hop_name name i) link m.tunnels r
      → ((now : List ℕ) (n : ChainManager) → Owns before now n.tunnels → Ended before (rest now n))
      → Ended before (after_start order outs name i hops m r rest)
  unfolding after_start
  after_start-Ended i hops m (n, none) rest link owns (made t _ number at e) go =
      let found =
        ap (λ d. lookup (hop_name name i) d) at
        ∙ lookup-own (hop_name name i) t m.tunnels.tunnels in
      let process = process_of-found (hop_name name i) n t found ∙ ap (λ k. k ∷ []) number in
      go _ _ (
        subst (λ ps. Owns before (hops ++ ps) n) (sym process)
          (Owns-spawn before hops m.tunnels owns n e))
  after_start-Ended i hops m (n, some e) rest link owns (failed same later) go =
      given_up (stop_chain_hops-others before hops m.tunnels owns n same)
        (stop_chain_hops-later before hops m.tunnels owns n later)

  pub start_hops-Ended :
      (i : ℕ) (previous : String) (todo : List HopConfig) (hops : List ℕ) (m : ChainManager)
      → Owns before hops m.tunnels
      → Ended before (start_hops order outs name i previous todo hops m)
  unfolding start_hops
  start_hops-Ended i previous [] hops m owns = all_started owns
  start_hops-Ended i previous (hop ∷ todo) hops m owns =
      elim (Option-cases (get_link (order m.profiles.groups) hop.profile m.profiles)) [
        | inl e ↦
            rw (e, start_hops)
              (given_up (stop_chain_hops-others before hops m.tunnels owns m.tunnels (λ q. refl))
                (stop_chain_hops-later before hops m.tunnels owns m.tunnels (omega arith)))
        | inr (link, e) ↦
            rw (e, start_hops)
              (after_start-Ended i hops _ _ _ (chained i previous link) owns
                (start_tunnel-Starts (outs i) (hop_name name i) (chained i previous link) m.tunnels
                  owns.numbered hop.engine)
                (λ now n started. start_hops-Ended (suc i) (listen_address i) todo now n started))
      ]
