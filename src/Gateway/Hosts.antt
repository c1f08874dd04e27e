-- ===== src/Gateway/Hosts.antt =====
-- `pinHostToEtcHosts` and `unpinHostsFromEtcHosts` of internal/gateway/gateway.go: the lines that the
-- gateway writes to /etc/hosts. A file that cannot be read is none.
pub mod Lines
pub mod Pinned
use Prim.Native.Char.{Char}
use Prim.Native.String.{char_at}
use bypath.Base.{
  String, string_eq, Bool, true, false, not, ◌&&◌, ◌||◌, ◌==◌, if◌then◌else◌, List, [], ◌∷◌, Option,
  none, some, select, join, split, contains_text, ends_in, ◌<>◌,
}

-- What `net.ParseIP` says of a text that is an address.
pub record Ip : Type 0 where
  pub is_loopback : Bool
  pub is_private : Bool

-- The parts of package `net`: `net.ParseIP`, and what a name server answers for a name (none for an
-- error).
pub record Net : Type 0 where
  pub parse_ip : String → Option Ip
  pub lookup_host : String → String → Option (List String)

abbrev pub newline : Char
newline = char_at "\n" 0

abbrev pub marker : String
marker = "# bypath-pin"

-- the upstream servers, or the defaults
abbrev pub or_public : List String → List String
or_public [] = "1.1.1.1" ∷ "8.8.8.8" ∷ []
or_public (ns ∷ rest) = ns ∷ rest

-- an address that stands for a blocked name
unfoldable pub is_intercepted : Net → String → Bool
is_intercepted net candidate = elim (net.parse_ip candidate) [
  | none ↦ false
  | some ip ↦ ip.is_loopback || ip.is_private
]

-- the body of the loop over the name servers, with the address that the rest of the loop finds
unfoldable pub answer_of : Net → Option (List String) → String → String
answer_of net (some (candidate ∷ _)) rest = if is_intercepted net candidate then rest else candidate
answer_of net _ rest = rest

-- the loop over the name servers; "" if there is no address
unfoldable pub first_address : Net → String → List String → String
first_address net hostname [] = ""
first_address net hostname (ns ∷ servers) =
    answer_of net (net.lookup_host ns hostname) (first_address net hostname servers)

-- a line that an earlier pin of the host left
abbrev pub is_pin_of : String → String → Bool
is_pin_of hostname line = contains_text line marker && contains_text line hostname

-- the line of a pin, without its newline
abbrev pub pin_line : String → String → String
pin_line ip hostname = ip <> (" " <> (hostname <> (" " <> marker)))

-- the new content of /etc/hosts
unfoldable pub pinned : String → String → String → String
pinned ip hostname current =
    let content =
      join newline (select (λ line. not (is_pin_of hostname line)) (split b'\n' current)) in
    let closed = if not (ends_in b'\n' content) then content <> "\n" else content in
    closed <> (pin_line ip hostname <> "\n")

abbrev pub or_empty : Option String → String
or_empty none = ""
or_empty (some content) = content

-- `pinHostToEtcHosts`: the file that it leaves, and the address
unfoldable pub pin_host_to_etc_hosts :
    Net → List String → Bool → String → Option String → Option String × String
pin_host_to_etc_hosts net dns_upstream writes hostname hosts =
    let ip = first_address net hostname (or_public dns_upstream) in
    elim (net.parse_ip hostname) [
      | some _ ↦ (hosts, "")
      | none ↦
          if ip == ""
          then (hosts, "")
          else if writes
          then (some (pinned ip hostname (or_empty hosts)), ip)
          else (hosts, "")
    ]

-- the content without any pin
unfoldable pub unpinned : String → String
unpinned current =
    join newline (select (λ line. not (contains_text line marker)) (split b'\n' current))

-- `unpinHostsFromEtcHosts`
unfoldable pub unpin_hosts_from_etc_hosts : Bool → Option String → Option String
unpin_hosts_from_etc_hosts writes none = none
unpin_hosts_from_etc_hosts writes (some current) =
    if writes then some (unpinned current) else some current
