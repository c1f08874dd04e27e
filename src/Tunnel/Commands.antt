-- ===== src/Tunnel/Commands.antt =====
-- internal/tunnel/tunnel.go: what `StartTunnel` and `startSSHTunnel` run.
mod Tests
use bypath.Base.{
  ℤ, pos, int_eq, String, string_eq, Bool, true, false, not, ◌&&◌, ◌==◌, ◌<>◌, if◌then◌else◌, List,
  [], ◌∷◌, ◌++◌, Option, none, some, format_int,
}
use bypath.Profile.{Link}
use bypath.Engine.Command.{RunOptions, FirejailOptions}

-- `TunnelOptions`
pub record TunnelOptions : Type 0 where
  pub engine_name : String
  pub isolate : Bool
  pub net_interface : String
  pub ip : String
  pub gateway : String

-- the options of `StartTunnel` for an engine of a name and a path, and a configuration file
unfoldable pub tunnel_run :
    Bool → List String → String → String → String → String → TunnelOptions → RunOptions
tunnel_run isolation dns_upstream engine_name engine_path config_file name opts = record {
  engine_name = engine_name;
  engine_path = engine_path;
  args = [];
  config_file = config_file;
  log_file = "./logs/" <> (name <> ".log");
  firejail =
      if opts.isolate && isolation
      then some (record {
        enabled = true;
        namespace = name;
        net_iface = opts.net_interface;
        ip = opts.ip;
        gateway = opts.gateway;
        dns = dns_upstream;
      })
      else none;
}

-- the port on which the tunnel listens
abbrev pub ssh_listen_port : ℤ → Link → ℤ
ssh_listen_port socks_port link = if link.listen_port == pos 0 then socks_port else link.listen_port

-- the arguments of ssh
unfoldable pub ssh_args : ℤ → Link → List String
ssh_args socks_port link =
    let port = if link.port == pos 0 then pos 22 else link.port in
    let user = if link.ssh_user == "" then "root" else link.ssh_user in
    let key = if link.ssh_key_path == "" then [] else "-i" ∷ link.ssh_key_path ∷ [] in
    (("-D 0.0.0.0:" <> format_int (ssh_listen_port socks_port link))
      ∷ "-N"
      ∷ "-o"
      ∷ "StrictHostKeyChecking=no"
      ∷ "-o"
      ∷ "UserKnownHostsFile=/dev/null"
      ∷ "-o"
      ∷ "ServerAliveInterval=30"
      ∷ "-o"
      ∷ "ServerAliveCountMax=3"
      ∷ key)
    ++ ("-p" ∷ format_int port ∷ (user <> ("@" <> link.address)) ∷ [])

-- The options of `startSSHTunnel`: a password is given by sshpass, if there is no key; none if sshpass is
-- missing then.
unfoldable pub ssh_run : Bool → ℤ → String → Link → Option RunOptions
ssh_run has_sshpass socks_port path link =
    let args = ssh_args socks_port link in
    let by_key : RunOptions = record {
      engine_name = "ssh";
      engine_path = path;
      args = args;
      config_file = "";
      log_file = "";
      firejail = none;
    } in
    if link.ssh_key_path == "" && not (link.ssh_password == "")
    then if not has_sshpass
      then none
      else some
          (record by_key { engine_path = "sshpass"; args = "-p" ∷ link.ssh_password ∷ path ∷ args })
    else some by_key
