-- ===== src/Gateway/Query/Private.antt =====
-- Which servers see a question.
use bypath.Base.{
  String, string_eq, true, false, ◌==◌, List, [], ◌∷◌, ◌++◌, none, some, ◌<>◌, ◌≡◌, ◌⊎◌, inl, inr,
  refl, sym, ap, All, Some, any, has_suffix_iff, to_lower, trim_end, Bool-cases, Option-cases,
  eq_iff, arith,
}
use bypath.Config.{LocalDnsEntry}
use bypath.Gateway.Query.{
  Contact, Reply, Servers, local, local_dns, is_below, serves, local_server, first_answer,
  remote_contacts, answer_query, is_broken, answer, server_failure, panics, or_name_error,
}

-- A name is a domain, or some label stands before the domain.
abbrev pub IsBelow : String → String → Type 0
IsBelow qname suffix =
    (qname ≡ to_lower suffix) ⊎ ((front : String) × (qname ≡ front <> ("." <> to_lower suffix)))

abbrev pub IsServed : String → LocalDnsEntry → Type 0
IsServed qname entry = Some (IsBelow qname) entry.domains

is_below-IsBelow : (qname suffix : String) → is_below qname suffix ≡ true → IsBelow qname suffix
unfolding is_below
is_below-IsBelow qname suffix h = elim (Bool-cases (qname == to_lower suffix)) [
  | inl e ↦ inl ((eq_iff _ _).0 e)
  | inr e ↦ inr ((has_suffix_iff qname _).0 (rw (e, is_below) at h))
]

not-IsBelow : (qname suffix : String) → is_below qname suffix ≡ false → ¬ IsBelow qname suffix
unfolding is_below
not-IsBelow qname suffix h (inl e) = cc (sym (rw ((eq_iff _ _).1 e) at h))
not-IsBelow qname suffix h (inr below) = ground (arith, h, (has_suffix_iff qname _).1 below)

any-Some :
    (qname : String) (domains : List String)
    → any (is_below qname) domains ≡ true
    → Some (IsBelow qname) domains
any-Some qname [] h = cc
any-Some qname (d ∷ ds) h = elim (Bool-cases (is_below qname d)) [
  | inl e ↦ inl (is_below-IsBelow qname d e)
  | inr e ↦ inr (any-Some qname ds (rw e at h))
]

any-none :
    (qname : String) (domains : List String)
    → any (is_below qname) domains ≡ false
    → ¬ Some (IsBelow qname) domains
any-none qname [] h s = elim s [ ]
any-none qname (d ∷ ds) h (inl b) = elim (Bool-cases (is_below qname d)) [
  | inl e ↦ cc (sym (rw e at h))
  | inr e ↦ not-IsBelow qname d e b
]
any-none qname (d ∷ ds) h (inr s) = elim (Bool-cases (is_below qname d)) [
  | inl e ↦ cc (sym (rw e at h))
  | inr e ↦ any-none qname ds (rw e at h) s
]

-- `entry` is the first of the entries that has a domain of the name.
pub record IsFirstFor (qname : String) (entries : List LocalDnsEntry) (entry : LocalDnsEntry)
    : Type 0 where
  pub front : List LocalDnsEntry
  pub back : List LocalDnsEntry
  pub splits : entries ≡ front ++ entry ∷ back
  pub others : All (λ e. ¬ IsServed qname e) front
  pub served : IsServed qname entry

local_server-cases :
    (qname : String) (entries : List LocalDnsEntry)
    → ((local_server qname entries ≡ none) × All (λ e. ¬ IsServed qname e) entries)
      ⊎ ((entry : LocalDnsEntry) × (local_server qname entries ≡ some (entry.server <> ":53"))
          × IsFirstFor qname entries entry)
unfolding local_server
local_server-cases qname [] = inl (refl, tt)
local_server-cases qname (e ∷ es) = elim (Bool-cases (serves qname e)) [
  | inl here ↦ inr (
    e,
    rw (here, local_server) refl,
    record {
      front = [];
      back = es;
      splits = refl;
      others = tt;
      served = any-Some qname e.domains here;
    },
  )
  | inr other ↦ elim (local_server-cases qname es) [
    | inl (gone, rest) ↦ inl (rw (other, local_server) gone, (any-none qname e.domains other, rest))
    | inr (entry, same, f) ↦ inr (
      entry,
      rw (other, local_server) same,
      record {
        front = e ∷ f.front;
        back = f.back;
        splits = ap (λ l. e ∷ l) f.splits;
        others = (any-none qname e.domains other, f.others);
        served = f.served;
      },
    )
  ]
]

module _ {ℓ} {M : Type ℓ} (net : Servers M) where
  -- A server that is asked and gives no message.
  abbrev pub IsSilent : Contact → Type ℓ
  IsSilent c = (net.gives c ≡ none) × (is_broken net c ≡ false)

  -- The servers of a list are asked in order until one gives a message, or one has a URL of which no
  -- request can be made.
  pub data IsFirstAnswer (cs : List Contact) : List Contact → Reply M → Type ℓ where
    gave :
        (before : List Contact) (c : Contact) (behind : List Contact) (m : M)
        → cs ≡ before ++ c ∷ behind
        → All IsSilent before
        → net.gives c ≡ some m
        → is_broken net c ≡ false
        → IsFirstAnswer cs (before ++ c ∷ []) (answer m)
    exhausted : All IsSilent cs → IsFirstAnswer cs cs server_failure
    broke :
        (before : List Contact) (c : Contact) (behind : List Contact)
        → cs ≡ before ++ c ∷ behind
        → All IsSilent before
        → is_broken net c ≡ true
        → IsFirstAnswer cs before panics

  IsFirstAnswer-cons :
      (c : Contact) {cs asked : List Contact} {r : Reply M}
      → IsSilent c
      → IsFirstAnswer cs asked r
      → IsFirstAnswer (c ∷ cs) (c ∷ asked) r
  IsFirstAnswer-cons c h (gave before d behind m e hs g k) =
      gave (c ∷ before) d behind m (ap (λ l. c ∷ l) e) (h, hs) g k
  IsFirstAnswer-cons c h (broke before d behind e hs k) =
      broke (c ∷ before) d behind (ap (λ l. c ∷ l) e) (h, hs) k
  IsFirstAnswer-cons c h (exhausted hs) = exhausted (h, hs)

  first_answer-IsFirstAnswer :
      (cs : List Contact) → IsFirstAnswer cs (first_answer net cs).0 (first_answer net cs).1
  unfolding first_answer
  first_answer-IsFirstAnswer [] = exhausted tt
  first_answer-IsFirstAnswer (c ∷ cs) = elim (Bool-cases (is_broken net c)) [
    | inl k ↦ rw (k, first_answer) (broke [] c cs refl tt k)
    | inr k ↦ elim (Option-cases (net.gives c)) [
      | inl e ↦
          rw (k, first_answer, e) (IsFirstAnswer-cons c (e, k) (first_answer-IsFirstAnswer cs))
      | inr (m, e) ↦ rw (k, first_answer, e) (gave [] c cs m refl tt e k)
    ]
  ]

  -- What becomes of a question for a name.
  pub data Routed (entries : List LocalDnsEntry) (upstreams : List String) (qname : String)
      : List Contact × Reply M → Type ℓ where
    at_home :
        (entry : LocalDnsEntry)
        → IsFirstFor qname (local_dns entries) entry
        → Routed entries upstreams qname (
          local (entry.server <> ":53") ∷ [],
          or_name_error (net.gives (local (entry.server <> ":53"))),
        )
    away :
        {asked : List Contact} {r : Reply M}
        → All (λ e. ¬ IsServed qname e) (local_dns entries)
        → IsFirstAnswer (remote_contacts net upstreams) asked r
        → Routed entries upstreams qname (asked, r)

  -- A question for a name of a local domain goes to the local server of its first entry, and to no
  -- other server, whether that one answers or not (then the name is denied). For any other question the
  -- upstream servers are asked in order, through the tunnel first, until one answers; but the handler
  -- panics at the first server over HTTPS whose URL gives no request, if none before it answers.
  pub answer_query-Routed :
      (entries : List LocalDnsEntry) (upstreams : List String) (name : String)
      → Routed entries upstreams
          (trim_end b'.' (to_lower name))
          (answer_query net entries upstreams (some name))
  unfolding answer_query
  answer_query-Routed entries upstreams name =
      elim (local_server-cases (trim_end b'.' (to_lower name)) (local_dns entries)) [
        | inl (gone, others) ↦
            rw (gone, answer_query)
              (away others (first_answer-IsFirstAnswer (remote_contacts net upstreams)))
        | inr (entry, same, f) ↦ rw (same, answer_query) (at_home entry f)
      ]
