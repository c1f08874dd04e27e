-- ===== src/Gateway/Routing/Removed.antt =====
-- That the cleanup removes the rules and routes that the setup adds. Of the commands, only their
-- documented effect on rules and routes is read: an iptables chain is appended to by -A and emptied by
-- -F; a policy rule is added and deleted with its selector; routes are added to a table that is flushed.
use bypath.Base.{
  String, string_eq, Bool, true, false, not, ◌&&◌, ◌==◌, if◌then◌else◌, List, [], ◌∷◌, ◌++◌, select,
  ◌≡◌, refl,
}
use bypath.Gateway.Routing.{Args, Network, setup_dns_intercept, setup_routing, cleanup_routing}

-- A place that holds rules or routes: its kind and its name.
abbrev pub Place : Type 0
Place = String × String

pub data Effect : Type 0 where
  adds clears : Place → Effect
  other : Effect

abbrev pub chain_effect : String → String → String → Effect
chain_effect op table chain =
    if op == "-A" then adds (table, chain) else if op == "-F" then clears (table, chain) else other

-- `iptables`: the table is filter if none is named
unfoldable pub iptables_effect : Args → Effect
iptables_effect (a ∷ b ∷ c ∷ d ∷ _) =
    if a == "-t" then chain_effect c b d else chain_effect a "filter" b
iptables_effect (a ∷ b ∷ _) = chain_effect a "filter" b
iptables_effect _ = other

unfoldable pub ip_effect : Args → Effect
ip_effect (object ∷ verb ∷ _) =
    if object == "rule" && verb == "add"
    then adds ("rule", "fwmark 0x1 lookup 100")
    else if object == "rule" && verb == "del"
    then clears ("rule", "fwmark 0x1 lookup 100")
    else if object == "route" && verb == "add"
    then adds ("route", "table 100")
    else if object == "route" && verb == "flush"
    then clears ("route", "table 100")
    else other
ip_effect _ = other

unfoldable pub effect : Args → Effect
unfolding iptables_effect ip_effect
effect (cmd ∷ args) =
    if cmd == "iptables"
    then iptables_effect args
    else if cmd == "ip"
    then ip_effect args
    else other
effect [] = other

abbrev pub is_place : Place → Place → Bool
is_place p q = p.0 == q.0 && p.1 == q.1

-- the places that hold something of ours
unfoldable pub apply : Effect → List Place → List Place
apply (adds p) held = p ∷ held
apply (clears p) held = select (λ q. not (is_place p q)) held
apply other held = held

unfoldable pub left_by : List Args → List Place → List Place
left_by [] held = held
left_by (args ∷ commands) held = left_by commands (apply (effect args) held)

-- In either mode, and on any network: the cleanup behind a setup leaves no rule and no route of those that
-- the setup has added.
cleanup_routing-setup :
    (native_tun : Bool) (net : Network)
    → left_by (setup_routing native_tun net ++ cleanup_routing native_tun) [] ≡ []
unfolding left_by apply effect setup_routing setup_dns_intercept cleanup_routing select
cleanup_routing-setup true net = refl
cleanup_routing-setup false net = refl
