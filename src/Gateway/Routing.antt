-- ===== src/Gateway/Routing.antt =====
-- `setupRouting`, `setupDNSIntercept` and `cleanupRouting` of internal/gateway/gateway.go: the commands
-- that they run, whose errors they drop. What the last two do besides stands in Hosts and Resolv.
pub mod Removed
use bypath.Base.{ℤ, String, Bool, true, false, if◌then◌else◌, List, [], ◌∷◌, ◌++◌, format_int}

-- a command and its arguments
abbrev pub Args : Type 0
Args = List String

-- The network of the gateway: the fields of `Gateway` that are detected.
pub record Network : Type 0 where
  pub iface : String
  pub subnet : String
  pub dns_port : ℤ

-- `setupDNSIntercept`, for one protocol
abbrev pub redirect : Network → String → Args
redirect net protocol =
    "iptables"
    ∷ "-t"
    ∷ "nat"
    ∷ "-A"
    ∷ "PREROUTING"
    ∷ "-i"
    ∷ net.iface
    ∷ "-s"
    ∷ net.subnet
    ∷ "-p"
    ∷ protocol
    ∷ "--dport"
    ∷ "53"
    ∷ "-j"
    ∷ "REDIRECT"
    ∷ "--to-port"
    ∷ format_int net.dns_port
    ∷ []

-- `setupDNSIntercept`
unfoldable pub setup_dns_intercept : Network → List Args
setup_dns_intercept net = redirect net "udp" ∷ redirect net "tcp" ∷ []

abbrev pub masquerade : String → Args
masquerade device =
    "iptables" ∷ "-t" ∷ "nat" ∷ "-A" ∷ "POSTROUTING" ∷ "-o" ∷ device ∷ "-j" ∷ "MASQUERADE" ∷ []

abbrev pub flush_postrouting : Args
flush_postrouting = "iptables" ∷ "-t" ∷ "nat" ∷ "-F" ∷ "POSTROUTING" ∷ []

-- the rules of FORWARD, which are the same in both modes
abbrev pub forward_rules : Network → List Args
forward_rules net =
    ("iptables" ∷ "-F" ∷ "FORWARD" ∷ [])
    ∷ ("iptables" ∷ "-A" ∷ "FORWARD" ∷ "-i" ∷ net.iface ∷ "-o" ∷ "tun0" ∷ "-j" ∷ "ACCEPT" ∷ [])
    ∷ ("iptables" ∷ "-A" ∷ "FORWARD" ∷ "-i" ∷ "tun0" ∷ "-o" ∷ net.iface ∷ "-m" ∷ "state" ∷ "--state"
        ∷ "RELATED,ESTABLISHED" ∷ "-j" ∷ "ACCEPT" ∷ [])
    ∷ ("iptables" ∷ "-A" ∷ "FORWARD" ∷ "-i" ∷ net.iface ∷ "-o" ∷ net.iface ∷ "-j" ∷ "ACCEPT" ∷ [])
    ∷ []

abbrev pub forwarding : Args
forwarding = "sysctl" ∷ "-w" ∷ "net.ipv4.ip_forward=1" ∷ []

-- the commands of the mode in which sing-box has the TUN device
abbrev pub native_commands : Network → List Args
native_commands net =
    (forwarding ∷ flush_postrouting ∷ masquerade net.iface ∷ [])
    ++ (forward_rules net ++ setup_dns_intercept net)

-- the commands of the older mode
abbrev pub legacy_commands : Network → List Args
legacy_commands net =
    (forwarding
      ∷ ("ip" ∷ "route" ∷ "flush" ∷ "table" ∷ "100" ∷ [])
      ∷ ("ip" ∷ "route" ∷ "add" ∷ "default" ∷ "via" ∷ "10.0.0.1" ∷ "dev" ∷ "tun0" ∷ "table" ∷ "100"
          ∷ [])
      ∷ ("ip" ∷ "route" ∷ "add" ∷ net.subnet ∷ "dev" ∷ net.iface ∷ "table" ∷ "100" ∷ [])
      ∷ ("iptables" ∷ "-t" ∷ "mangle" ∷ "-F" ∷ "PREROUTING" ∷ [])
      ∷ ("iptables" ∷ "-t" ∷ "mangle" ∷ "-A" ∷ "PREROUTING" ∷ "-i" ∷ net.iface ∷ "-s" ∷ net.subnet
          ∷ "!" ∷ "-d" ∷ net.subnet ∷ "-j" ∷ "MARK" ∷ "--set-mark" ∷ "0x1" ∷ [])
      ∷ ("ip" ∷ "rule" ∷ "del" ∷ "fwmark" ∷ "0x1" ∷ "lookup" ∷ "100" ∷ [])
      ∷ ("ip" ∷ "rule" ∷ "add" ∷ "fwmark" ∷ "0x1" ∷ "lookup" ∷ "100" ∷ "prio" ∷ "100" ∷ [])
      ∷ flush_postrouting
      ∷ masquerade "tun0"
      ∷ masquerade net.iface
      ∷ [])
    ++ (forward_rules net ++ setup_dns_intercept net)

-- `setupRouting`
unfoldable pub setup_routing : Bool → Network → List Args
setup_routing native_tun net = if native_tun then native_commands net else legacy_commands net

-- `cleanupRouting`
unfoldable pub cleanup_routing : Bool → List Args
cleanup_routing native_tun =
    (("iptables" ∷ "-t" ∷ "mangle" ∷ "-F" ∷ "PREROUTING" ∷ [])
      ∷ ("iptables" ∷ "-t" ∷ "nat" ∷ "-F" ∷ "PREROUTING" ∷ [])
      ∷ ("iptables" ∷ "-t" ∷ "nat" ∷ "-F" ∷ "POSTROUTING" ∷ [])
      ∷ ("iptables" ∷ "-F" ∷ "FORWARD" ∷ [])
      ∷ [])
    ++ (if native_tun
        then []
        else ("ip" ∷ "rule" ∷ "del" ∷ "fwmark" ∷ "0x1" ∷ "lookup" ∷ "100" ∷ [])
          ∷ ("ip" ∷ "route" ∷ "flush" ∷ "table" ∷ "100" ∷ [])
          ∷ ("ip" ∷ "link" ∷ "del" ∷ "tun0" ∷ [])
          ∷ [])
