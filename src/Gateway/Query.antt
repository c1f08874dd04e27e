-- ===== src/Gateway/Query.antt =====
-- The query function of `startBuiltinDNS` of internal/gateway/gateway.go: which servers a question is
-- sent to. A message is of any type; package miekg/dns packs and unpacks it.
pub mod Private
use bypath.Base.{
  String, string_eq, Bool, true, false, not, ◌&&◌, ◌||◌, ◌==◌, if◌then◌else◌, List, [], ◌∷◌, Option,
  none, some, map, select, any, ◌++◌, ◌<>◌, has_suffix, to_lower, trim_end,
}
use bypath.Config.{LocalDnsEntry}

-- a server that is asked: a local one directly, one over HTTPS through the tunnel, or one directly
pub data Contact : Type 0 where
  local tunnelled direct : String → Contact

-- what the handler writes; or it panics, which ends the program
pub data Reply {ℓ} (M : Type ℓ) : Type ℓ where
  answer : M → Reply M
  name_error server_failure panics : Reply M

-- How the calls end: whether a text is an address, whether `http.NewRequest` takes a URL, whether the
-- query packs, and the message that a server gives (none for an error).
pub record Servers {ℓ} (M : Type ℓ) : Type ℓ where
  pub is_ip : String → Bool
  pub takes_url : String → Bool
  pub packs : Bool
  pub gives : Contact → Option M

-- an entry with a server and a domain
abbrev pub is_usable : LocalDnsEntry → Bool
is_usable entry = not (entry.server == "") && (elim entry.domains [ [] ↦ false | _ ∷ _ ↦ true ])

-- `localDNS`
unfoldable pub local_dns : List LocalDnsEntry → List LocalDnsEntry
local_dns entries = select is_usable entries

-- whether a name is a domain or below it
unfoldable pub is_below : String → String → Bool
is_below qname suffix = let sfx = to_lower suffix in qname == sfx || has_suffix qname ("." <> sfx)

abbrev pub serves : String → LocalDnsEntry → Bool
serves qname entry = any (is_below qname) entry.domains

-- the loop over the local entries: the server of the first that has the name
unfoldable pub local_server : String → List LocalDnsEntry → Option String
local_server qname [] = none
local_server qname (entry ∷ entries) =
    let rest = local_server qname entries in
    if serves qname entry then some (entry.server <> ":53") else rest

-- `dohURLs`
unfoldable pub doh_urls : (String → Bool) → List String → List String
doh_urls is_ip upstreams =
    map (λ up. if is_ip up then "https://" <> (up <> "/dns-query") else up) upstreams

-- a local server that does not answer has the name denied
abbrev pub or_name_error {ℓ} : {M : Type ℓ} → Option M → Reply M
or_name_error none = name_error
or_name_error (some m) = answer m

module _ {ℓ} {M : Type ℓ} (net : Servers M) where
  -- a server over HTTPS whose URL gives no request: the header of the nil request is set, a panic
  unfoldable pub is_broken : Contact → Bool
  is_broken (tunnelled url) = not (net.takes_url url)
  is_broken (local server) = false
  is_broken (direct server) = false

  -- the loops over servers: those that were asked, and the first message, or a failure behind the last
  unfoldable pub first_answer : List Contact → List Contact × Reply M
  first_answer [] = ([], server_failure)
  first_answer (c ∷ cs) =
      let rest = first_answer cs in
      let sent : List Contact × Reply M = elim (net.gives c) [
        | some m ↦ (c ∷ [], answer m)
        | none ↦ (c ∷ rest.0, rest.1)
      ] in
      if is_broken c then ([], panics) else sent

  -- the servers that a question beside the local domains may be sent to, in order
  unfoldable pub remote_contacts : List String → List Contact
  remote_contacts upstreams =
      let doh = map (λ url. tunnelled url) (doh_urls net.is_ip upstreams) in
      let udp = map (λ up. direct (up <> ":53")) upstreams in if net.packs then doh ++ udp else udp

  -- `queryFn` and the handler, for the first question of a message, if there is one: the servers that
  -- are asked, and the reply
  unfoldable pub answer_query :
      List LocalDnsEntry → List String → Option String → List Contact × Reply M
  answer_query entries upstreams question =
      let other = first_answer (remote_contacts upstreams) in
      elim question [
        | none ↦ other
        | some name ↦ elim (local_server (trim_end b'.' (to_lower name)) (local_dns entries)) [
          | none ↦ other
          | some server ↦ (local server ∷ [], or_name_error (net.gives (local server)))
        ]
      ]
