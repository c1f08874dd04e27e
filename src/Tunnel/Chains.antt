-- ===== src/Tunnel/Chains.antt =====
-- `StartChain`, `StartChainSingleProcess` and `StopChain` of internal/tunnel/chain.go, over the manager
-- of tunnels. A method runs as one step, also where `StartChain` gives its lock back for a moment.
pub mod Starts
pub mod Owned
pub mod Cleaned
pub mod Linked
mod Tests
use bypath.Base.{
  ℕ, suc, ◌+◌, pos, String, string_eq, nat_eq, Bool, true, false, not, ◌&&◌, ◌==◌, ◌<>◌, ltb,
  if◌then◌else◌, List, [], ◌∷◌, ◌++◌, any, map, Option, none, some, lookup, insert, Dict,
  format_nat,
}
use bypath.Profile.{Link, Group}
use bypath.Profile.Store as Store
use bypath.Profile.Store.{get_link, find_link}
use bypath.Tunnel.{ConfigGenerator}
use bypath.Tunnel.Chain.{generate_chain_config}
use bypath.Tunnel.Manager.{
  Status, stopped, running, error, Tunnel, Manager, Outcome, Error, start_tunnel, stop_process,
  spawn,
}
use bypath.Tunnel.Strategy.{
  ChainStrategy, single_process, multi_process, HopConfig, resolve_chain_strategy,
}

-- `Chain`; a hop is known by the number of its process
pub record Chain : Type 0 where
  pub name : String
  pub hops : List ℕ
  pub status : Status
  pub strategy : ChainStrategy

-- The manager of tunnels with its chains, and the profiles that it is given.
pub record ChainManager : Type 0 where
  pub tunnels : Manager
  pub chains : Dict Chain
  pub profiles : Store.Manager

-- `config.ChainConfig`, what is read of it here
pub record ChainConfig : Type 0 where
  pub name : String
  pub hops : List HopConfig

pub data ChainError : Type 0 where
  no_profile : ℕ → ChainError
  hop_failed : ℕ → Error → ChainError
  chain_runs chain_not_found config_failed sing_box_missing process_failed : ChainError

abbrev pub runs_already : Status → Bool
runs_already running = true
runs_already _ = false

-- the fields that are set in the link of a hop: `previous` is the address of the hop before
abbrev pub chained : ℕ → String → Link → Link
chained i previous link = record link {
  chain_proxy = if ltb 0 i && not (previous == "") then previous else link.chain_proxy;
  listen_port = pos (10800 + i);
}

-- a change of the first link with the remark
unfoldable pub first_changed : (Link → Link) → String → List Link → List Link
first_changed f remark [] = []
first_changed f remark (l ∷ ls) =
    if l.remark == remark then f l ∷ ls else l ∷ first_changed f remark ls

abbrev pub group_changed : (Link → Link) → String → Group → Store.Manager → Store.Manager
group_changed f remark g m = record m {
  groups = insert g.name (record g { links = first_changed f remark g.links }) m.groups;
}

unfoldable pub changed_in_groups :
    (Link → Link) → String → List Group → Store.Manager → Store.Manager
changed_in_groups f remark [] m = m
changed_in_groups f remark (g ∷ gs) m =
    let rest = changed_in_groups f remark gs m in
    elim (find_link remark g.links) [ some l ↦ group_changed f remark g m | none ↦ rest ]

-- A change of the link that `GetLink` finds, which is the one in the group. (The active link is a copy
-- here, and does not follow.)
unfoldable pub link_changed : (Link → Link) → List Group → String → Store.Manager → Store.Manager
link_changed f order remark m =
    let others = changed_in_groups f remark order m in
    elim (lookup m.active_group m.groups) [
      | none ↦ others
      | some g ↦ elim (find_link remark g.links) [
        | some l ↦ group_changed f remark g m
        | none ↦ others
      ]
    ]

-- the tunnel of a process, which the map may hold, is marked as stopped
abbrev pub marked : ℕ → String × Tunnel → String × Tunnel
marked pid e = (e.0, if e.1.process == pid then record e.1 { status = stopped } else e.1)

-- the body of the loop of `stopChainHops`
unfoldable pub stop_hop : ℕ → Manager → Manager
stop_hop pid m = record {
  tunnels =
      if any (λ p. p == pid) m.processes.active then map (marked pid) m.tunnels else m.tunnels;
  processes = stop_process pid m.processes;
}

-- `stopChainHops`, the last hop first
unfoldable pub stop_chain_hops : List ℕ → Manager → Manager
stop_chain_hops [] m = m
stop_chain_hops (pid ∷ pids) m = stop_hop pid (stop_chain_hops pids m)

abbrev pub hop_name : String → ℕ → String
hop_name chain i = chain <> ("-hop-" <> format_nat i)

abbrev pub listen_address : ℕ → String
listen_address i = "127.0.0.1:" <> format_nat (10800 + i)

-- `m.tunnels[hopName]`, if it exists
abbrev pub process_of : String → Manager → List ℕ
process_of name m = elim (lookup name m.tunnels) [ none ↦ [] | some t ↦ t.process ∷ [] ]

-- what the chain keeps when a hop has failed
abbrev pub abandoned : List ℕ → ChainManager → ChainManager
abandoned hops m = record m { tunnels = stop_chain_hops hops m.tunnels }

-- how the start of the hops ends: the manager, the hops, and the error
abbrev pub Started : Type 0
Started = ChainManager × List ℕ × Option ChainError

-- `order` is the order in which `range m.groups` goes in `GetLink`; `outs` says how the start of each
-- hop ends.
module _ (order : Dict Group → List Group) (outs : ℕ → Outcome) (name : String) where
  -- the rest of the loop body of `StartChain` behind `StartTunnel`, with the rest of the loop
  unfoldable pub after_start :
      ℕ
      → List ℕ
      → ChainManager
      → Manager × Option Error
      → (List ℕ → ChainManager → Started)
      → Started
  after_start i hops m (tunnels, none) rest =
      rest (hops ++ process_of (hop_name name i) tunnels) (record m { tunnels = tunnels })
  after_start i hops m (tunnels, some e) rest =
      (abandoned hops (record m { tunnels = tunnels }), hops, some (hop_failed i e))

  -- the loop of `StartChain` from hop `i` on
  unfoldable pub start_hops : ℕ → String → List HopConfig → List ℕ → ChainManager → Started
  start_hops i previous [] hops m = (m, hops, none)
  start_hops i previous (hop ∷ rest) hops m =
      let groups = order m.profiles.groups in
      let changed = link_changed (chained i previous) groups hop.profile m.profiles in
      elim (get_link groups hop.profile m.profiles) [
        | none ↦ (abandoned hops m, hops, some (no_profile i))
        | some link ↦
            after_start i hops (record m { profiles = changed })
              (start_tunnel (outs i) (hop_name name i) (chained i previous link) hop.engine
                m.tunnels)
              (λ now started. start_hops (suc i) (listen_address i) rest now started)
      ]

-- a chain without hops is kept with the status
abbrev pub kept_as : String → ChainStrategy → List ℕ → Status → ChainManager → ChainManager
kept_as name strategy hops status m = record m {
  chains =
      insert name (record { name = name; hops = hops; status = status; strategy = strategy })
        m.chains;
}

-- the end of `StartChain`: the chain is kept if every hop was started
unfoldable pub kept_chain : String → Started → ChainManager × Option ChainError
kept_chain name (m, hops, none) = (kept_as name multi_process hops running m, none)
kept_chain name (m, hops, some e) = (m, some e)

-- the links of the hops of `StartChainSingleProcess`, or the number of the first that is not found
unfoldable pub resolved : List Group → Store.Manager → ℕ → List HopConfig → List Link × Option ℕ
resolved order profiles i [] = ([], none)
resolved order profiles i (hop ∷ hops) =
    let (links, failed) = resolved order profiles (suc i) hops in
    elim (get_link order hop.profile profiles) [
      | none ↦ ([], some i)
      | some link ↦ (link ∷ links, failed)
    ]

-- `c, exists := m.chains[name]; exists && c.Status == StatusRunning`
abbrev pub chain_is_running : String → Dict Chain → Bool
chain_is_running name chains = elim (lookup name chains) [
  | none ↦ false
  | some c ↦ runs_already c.status
]

-- the rest of `StartChainSingleProcess` behind the links
unfoldable pub start_single :
    ConfigGenerator
    → Outcome
    → String
    → List Link × Option ℕ
    → ChainManager
    → ChainManager × Option ChainError
start_single cg out name (links, some i) m =
    (kept_as name single_process [] error m, some (no_profile i))
start_single cg out name (links, none) m =
    let failed = kept_as name single_process [] error m in
    let started = record m {
      tunnels = record m.tunnels { processes = spawn m.tunnels.processes };
    } in
    elim (generate_chain_config cg name links) [
      | none ↦ (failed, some config_failed)
      | some config ↦
          if not out.writes_config
          then (failed, some config_failed)
          else if not (out.has_engine "sing-box")
          then (failed, some sing_box_missing)
          else if not out.starts
          then (failed, some process_failed)
          else (kept_as name single_process (m.tunnels.processes.next ∷ []) running started, none)
    ]

-- `StartChainSingleProcess`
unfoldable pub start_chain_single_process :
    ConfigGenerator
    → (Dict Group → List Group)
    → Outcome
    → ChainConfig
    → ChainManager
    → ChainManager × Option ChainError
start_chain_single_process cg order out chain m =
    if chain_is_running chain.name m.chains
    then (m, some chain_runs)
    else start_single cg out chain.name (resolved (order m.profiles.groups) m.profiles 0 chain.hops)
        m

-- `StartChain`
unfoldable pub start_chain :
    ConfigGenerator
    → (Dict Group → List Group)
    → (ℕ → Outcome)
    → ChainConfig
    → ChainManager
    → ChainManager × Option ChainError
start_chain cg order outs chain m =
    elim (resolve_chain_strategy (order m.profiles.groups) m.profiles chain.hops) [
      | single_process ↦ start_chain_single_process cg order (outs 0) chain m
      | multi_process ↦
          kept_chain chain.name (start_hops order outs chain.name 0 "" chain.hops [] m)
    ]

-- `StopChain`
unfoldable pub stop_chain : String → ChainManager → ChainManager × Option ChainError
stop_chain name m = elim (lookup name m.chains) [
  | none ↦ (m, some chain_not_found)
  | some c ↦ (
    record m {
      tunnels = stop_chain_hops c.hops m.tunnels;
      chains = insert name (record c { status = stopped }) m.chains;
    },
    none,
  )
]
