-- ===== src/Tunnel/Manager.antt =====
-- internal/tunnel/tunnel.go: the manager of single tunnels, with the processes that it starts. A
-- method runs as one step; the window in which `startSSHTunnel` waits without the lock is not split.
pub mod Held
pub mod Orphans
pub mod History
use bypath.Base.{
  ℕ, suc, ◌+◌, ℤ, pos, int_eq, String, string_eq, nat_eq, Bool, true, false, not, ◌&&◌, Option,
  none, some, List, [], ◌∷◌, select, any, map, Dict, lookup, insert, if◌then◌else◌, ◌==◌,
}
use bypath.Profile.{Link}
use bypath.Tunnel.Json.{switch}

-- `Status`
pub data Status : Type 0 where
  stopped starting running error : Status

-- `Tunnel`; its process is known by a number
pub record Tunnel : Type 0 where
  pub name : String
  pub link : Link
  pub engine : String
  pub process : ℕ
  pub status : Status

-- The processes that were started: those with `running` set, those that are cancelled, and the number
-- of the next one.
pub record Processes : Type 0 where
  pub active : List ℕ
  pub cancelled : List ℕ
  pub next : ℕ

-- `Manager` and its processes
pub record Manager : Type 0 where
  pub tunnels : Dict Tunnel
  pub processes : Processes

pub data Error : Type 0 where
  already_running no_engine no_config no_sshpass not_started port_not_ready not_found : Error

-- How the calls of one start end: whether the engine of a name is found, the configuration is
-- written, the process starts, and the port opens; and whether there is `sshpass`.
pub record Outcome : Type 0 where
  pub has_engine : String → Bool
  pub writes_config : Bool
  pub starts : Bool
  pub port_opens : Bool
  pub has_sshpass : Bool

-- `resolveEngine`
unfoldable pub resolve_engine : String → String
resolve_engine protocol =
    switch protocol
      (("vmess", "sing-box")
        ∷ ("vless", "sing-box")
        ∷ ("trojan", "sing-box")
        ∷ ("shadowsocks", "sing-box")
        ∷ ("hysteria2", "sing-box")
        ∷ ("wireguard", "wireguard-go")
        ∷ ("openvpn", "openvpn")
        ∷ [])
      "sing-box"

abbrev pub is_running : Status → Bool
is_running running = true
is_running _ = false

-- `t, exists := m.tunnels[name]; exists && t.Status == StatusRunning`
abbrev pub runs : String → Dict Tunnel → Bool
runs name tunnels = elim (lookup name tunnels) [ none ↦ false | some t ↦ is_running t.status ]

-- `engine.StartProcess`, where it succeeds
abbrev pub spawn : Processes → Processes
spawn ps = record ps { active = ps.next ∷ ps.active; next = suc ps.next }

-- `Process.Stop`: a process that runs is cancelled
unfoldable pub stop_process : ℕ → Processes → Processes
stop_process pid ps =
    let stopping : Processes = record ps { cancelled = pid ∷ ps.cancelled } in
    if any (λ p. p == pid) ps.active then stopping else ps

-- a process ends
unfoldable pub process_exits : ℕ → Processes → Processes
process_exits pid ps = record ps { active = select (λ p. not (p == pid)) ps.active }

-- the manager with a new process in a tunnel of the name
abbrev pub with_tunnel : String → Link → String → Manager → Manager
with_tunnel name link engine m = record {
  tunnels =
      insert name
        (record {
          name = name;
          link = link;
          engine = engine;
          process = m.processes.next;
          status = running;
        })
        m.tunnels;
  processes = spawn m.processes;
}

-- whether the password is given by `sshpass`
abbrev pub needs_sshpass : Link → Bool
needs_sshpass link = link.ssh_key_path == "" && not (link.ssh_password == "")

-- `startSSHTunnel`
unfoldable pub start_ssh_tunnel : Outcome → String → Link → Manager → Manager × Option Error
start_ssh_tunnel out name link m =
    if runs name m.tunnels
    then (m, some already_running)
    else if not (out.has_engine "ssh")
    then (m, some no_engine)
    else if needs_sshpass link && not out.has_sshpass
    then (m, some no_sshpass)
    else if not out.starts
    then (m, some not_started)
    else if out.port_opens
    then (with_tunnel name link "ssh" m, none)
    else (
      record m { processes = stop_process m.processes.next (spawn m.processes) },
      some port_not_ready,
    )

-- `StartTunnel`; `forced` is the option `EngineName`
unfoldable pub start_tunnel : Outcome → String → Link → String → Manager → Manager × Option Error
start_tunnel out name link forced m =
    let engine = if forced == "" then resolve_engine link.protocol else forced in
    if link.protocol == "ssh"
    then start_ssh_tunnel out name link m
    else if runs name m.tunnels
    then (m, some already_running)
    else if not (out.has_engine engine)
    then (m, some no_engine)
    else if not out.writes_config
    then (m, some no_config)
    else if not out.starts
    then (m, some not_started)
    else (with_tunnel name link engine m, none)

-- `StopTunnel`
unfoldable pub stop_tunnel : String → Manager → Manager × Option Error
stop_tunnel name m = elim (lookup name m.tunnels) [
  | none ↦ (m, some not_found)
  | some t ↦ (
    record {
      tunnels = insert name (record t { status = stopped }) m.tunnels;
      processes = stop_process t.process m.processes;
    },
    none,
  )
]

-- a tunnel as `GetStatus` leaves it
unfoldable pub refreshed : Processes → Tunnel → Tunnel
refreshed ps t =
    let dead : Tunnel = record t { status = stopped } in
    if any (λ p. p == t.process) ps.active then t else dead

-- `GetStatus`: the manager that it leaves, and the status of each tunnel
unfoldable pub get_status : Manager → Manager × Dict Status
get_status m =
    let tunnels = map (λ (e : String × Tunnel). (e.0, refreshed m.processes e.1)) m.tunnels in
    (record m { tunnels = tunnels }, map (λ (e : String × Tunnel). (e.0, e.1.status)) tunnels)
