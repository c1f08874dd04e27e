-- ===== src/Gateway/Resolv/Kept.antt =====
-- When the resolver configuration of the host comes back.
use bypath.Base.{
  String, string_eq, Bool, true, false, ◌==◌, List, [], ◌∷◌, none, some, ◌≡◌, ◌≢◌, contains_text,
  trim_space,
}
use bypath.Gateway.Resolv.{Files, fallback, set_resolv_conf, clean_resolv_conf}

-- What happens to /etc/resolv.conf before the gateway stops: it is pointed to the gateway, or the
-- gateway starts again behind a crash.
pub data Event : Type 0 where
  points restarts : Event

unfoldable pub after : List Event → Files → Files
after [] fs = fs
after (points ∷ events) fs = after events (set_resolv_conf true true "127.0.0.1" fs)
after (restarts ∷ events) fs = after events (clean_resolv_conf true fs)

-- whether the last event points the file to the gateway
abbrev pub points_last : Bool → List Event → Bool
points_last so_far [] = so_far
points_last so_far (points ∷ events) = points_last true events
points_last so_far (restarts ∷ events) = points_last false events

-- A configuration that is not the gateway's own: it is not empty, does not contain 127.0.0.1 (nor is it
-- the line for it when it is trimmed), and is not the fallback.
pub record IsForeign (original : String) : Type 0 where
  pub filled : (original == "") ≡ false
  pub elsewhere : contains_text original "127.0.0.1" ≡ false
  pub unpointed : (trim_space original == "nameserver 127.0.0.1") ≡ false
  pub other : original ≢ fallback

abbrev local : String
local = "nameserver 127.0.0.1\n"

-- the two states that a run goes through
abbrev state_of : String → Bool → Files
state_of original true = record { resolv_conf = some local; backup = some original }
state_of original false = record { resolv_conf = some original; backup = none }
