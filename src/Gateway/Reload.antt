-- ===== src/Gateway/Reload.antt =====
-- `Reload` of internal/gateway/gateway.go: a new configuration for a gateway that runs.
pub mod Changes
pub mod Listed
use Prim.Native.Char.{Char}
use Prim.Native.String.{char_at}
use bypath.Base.{
  ℤ, int_eq, String, string_eq, nat_eq, Bool, true, false, not, ◌||◌, ◌==◌, if◌then◌else◌, List, [],
  ◌∷◌, length, join,
}
use bypath.Config.{Config, LocalDnsEntry}

abbrev pub comma : Char
comma = char_at "," 0

-- `strings.Join(xs, ",") != strings.Join(ys, ",")`
abbrev pub joins_differ : List String → List String → Bool
joins_differ xs ys = not (join comma xs == join comma ys)

-- the loop of `localDNSChanged`
unfoldable pub entries_changed : List LocalDnsEntry → List LocalDnsEntry → Bool
entries_changed (x ∷ xs) (y ∷ ys) =
    not (x.server == y.server) || joins_differ x.domains y.domains || entries_changed xs ys
entries_changed _ _ = false

-- `localDNSChanged`
unfoldable pub local_dns_changed : List LocalDnsEntry → List LocalDnsEntry → Bool
local_dns_changed a b = if not (length a == length b) then true else entries_changed a b

abbrev pub bool_differ : Bool → Bool → Bool
bool_differ true b = not b
bool_differ false b = b

-- `if changed { needRestart = append(needRestart, name) }`
abbrev pub listed_if : Bool → String → List String → List String
listed_if changed name rest = if changed then name ∷ rest else rest

-- `Reload`: the configuration of the gateway, and the fields that need a restart
unfoldable pub reload : Config → Config → Config × List String
reload old new = (
  new,
  listed_if (not (new.server.socks_port == old.server.socks_port)) "server.socks_port" (
      listed_if (not (new.server.api_port == old.server.api_port)) "server.api_port" (
        listed_if (bool_differ new.gateway.native_tun old.gateway.native_tun) "gateway.native_tun" (
          listed_if (joins_differ new.gateway.dns_upstream old.gateway.dns_upstream)
            "gateway.dns_upstream"
            (listed_if (local_dns_changed old.gateway.local_dns new.gateway.local_dns)
              "gateway.local_dns"
              (listed_if (not (new.engines.preferred_engine == old.engines.preferred_engine))
                "engines.preferred" []))))),
)
