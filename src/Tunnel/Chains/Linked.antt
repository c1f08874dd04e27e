-- ===== src/Tunnel/Chains/Linked.antt =====
-- How the tunnels of a chain of several processes stand to each other.
use bypath.Base.{
  ℤ, ℕ, suc, ◌+◌, pos, String, string_eq, List, ◌∷◌, none, some, Dict, lookup, ◌≡◌, ◌<◌,
}
use bypath.Profile.{Link}
use bypath.Tunnel.{ConfigGenerator}
use bypath.Tunnel.Json.{Object, text, number, get}
use bypath.Tunnel.Singbox.{World, singbox_outbounds}
use bypath.Tunnel.Manager.{Tunnel, Manager}
use bypath.Tunnel.Chains.{ChainManager, ChainError, Started, hop_name, listen_address}
use bypath.Tunnel.Chains.Starts.{Starts}

-- The outbounds that sing-box is given for a link: the first dials through the second, the SOCKS proxy
-- at a port of this host.
abbrev pub DialsPort : ℤ → Link → Type 0
DialsPort port link =
    (world : World) (cg : ConfigGenerator)
    → (first second : Object) × (rest : List Object) × (singbox_outbounds world cg link
        ≡ first ∷ second ∷ rest)
      × (get "detour" first ≡ some (text "chain-out"))
      × (get "tag" second ≡ some (text "chain-out"))
      × (get "server" second ≡ some (text "127.0.0.1"))
      × (get "server_port" second ≡ some (number port))

-- The tunnel of hop `i` listens on its port, and dials through the hop before it.
pub record IsHop (chain : String) (tunnels : Dict Tunnel) (i : ℕ) : Type 0 where
  pub tunnel : Tunnel
  pub found : lookup (hop_name chain i) tunnels ≡ some tunnel
  pub listens : tunnel.link.listen_port ≡ pos (10800 + i)
  pub dials : (j : ℕ) → suc j ≡ i → tunnel.link.chain_proxy ≡ listen_address j
  pub sing_box : (j : ℕ) → suc j ≡ i → DialsPort (pos (10800 + j)) tunnel.link

-- the first hops, if all were started
data Linked (chain : String) (k : ℕ) : Started → Type 0 where
  linked :
      {m : ChainManager} {hops : List ℕ}
      → ((j : ℕ) → j < k → IsHop chain m.tunnels.tunnels j)
      → Linked chain k (m, hops, none)
  given_up : {m : ChainManager} {hops : List ℕ} {e : ChainError} → Linked chain k (m, hops, some e)
