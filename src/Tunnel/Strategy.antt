-- ===== src/Tunnel/Strategy.antt =====
-- `resolveChainStrategy` of internal/tunnel/chain.go: whether one sing-box can run a whole chain.
pub mod Native
mod Tests
use bypath.Base.{
  String, string_eq, Bool, true, false, not, ◌&&◌, ◌==◌, if◌then◌else◌, List, [], ◌∷◌, Option, none,
  some, lookup, Dict,
}
use bypath.Profile.{Link, Group}
use bypath.Profile.Store.{Manager, get_link}

-- `ChainStrategy`
pub data ChainStrategy : Type 0 where
  single_process : ChainStrategy
  multi_process : ChainStrategy

-- `config.HopConfig`
pub record HopConfig : Type 0 where
  pub profile : String
  pub engine : String
  pub isolate : Bool

-- `singBoxCompatibleProtocols`
abbrev pub sing_box_compatible_protocols : Dict Bool
sing_box_compatible_protocols =
    ("vmess", true)
    ∷ ("vless", true)
    ∷ ("trojan", true)
    ∷ ("shadowsocks", true)
    ∷ ("wireguard", true)
    ∷ ("socks5", true)
    ∷ ("http", true)
    ∷ []

-- `singBoxCompatibleProtocols[protocol]`, which is false for a missing key
unfoldable pub is_compatible : String → Bool
is_compatible protocol = elim (lookup protocol sing_box_compatible_protocols) [
  | none ↦ false
  | some b ↦ b
]

-- the body of the loop for one hop, with the strategy that the rest of the loop gives
unfoldable pub hop_strategy : List Group → Manager → HopConfig → ChainStrategy → ChainStrategy
hop_strategy order profiles hop rest =
    if not (hop.engine == "") && not (hop.engine == "sing-box")
    then multi_process
    else elim (get_link order hop.profile profiles) [
      | none ↦ multi_process
      | some link ↦ if not (is_compatible link.protocol) then multi_process else rest
    ]

-- `resolveChainStrategy`; `order` is the order in which `range m.groups` goes in `GetLink`
unfoldable pub resolve_chain_strategy : List Group → Manager → List HopConfig → ChainStrategy
resolve_chain_strategy order profiles [] = single_process
resolve_chain_strategy order profiles (hop ∷ hops) =
    hop_strategy order profiles hop (resolve_chain_strategy order profiles hops)
