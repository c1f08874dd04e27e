-- ===== src/Tunnel/Commands/Tests.antt =====
-- Command lines of tunnels.
use bypath.Base.{pos, string_eq, true, false, [], ◌∷◌, none, ◌≡◌, refl}
use bypath.Profile.{Link, zero_link}
use bypath.Tunnel.Json.{switch}
use bypath.Engine.Command.{command_of, build_engine_args, build_firejail_args, firejail_options}
use bypath.Tunnel.Commands.{TunnelOptions, tunnel_run, ssh_run}

abbrev isolated : TunnelOptions
isolated = record {
  engine_name = "";
  isolate = true;
  net_interface = "eth0";
  ip = "";
  gateway = "";
}

isolated_run :
    command_of (tunnel_run true ("1.1.1.1" ∷ []) "xray" "/bin/xray" "t.json" "t" isolated) ≡ (
      "firejail",
      "--noprofile" ∷ "--net=eth0" ∷ "--name=t" ∷ "--dns=1.1.1.1" ∷ "/bin/xray" ∷ "run" ∷ "-c"
          ∷ "t.json" ∷ [],
    )
unfolding command_of tunnel_run build_engine_args build_firejail_args firejail_options switch
isolated_run = refl

abbrev shell : Link
shell = record zero_link { address = "h.example"; ssh_password = "pw" }

no_sshpass : ssh_run false (pos 2801) "/usr/bin/ssh" shell ≡ none
unfolding ssh_run
no_sshpass = refl
