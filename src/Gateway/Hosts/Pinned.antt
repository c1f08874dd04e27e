-- ===== src/Gateway/Hosts/Pinned.antt =====
-- What a pin leaves in /etc/hosts, and that taking the pins out undoes it.

use bypath.Base.{
  String, string_eq, Bool, true, false, ◌==◌, List, [], ◌∷◌, ◌++◌, Option, none, some, ◌≡◌, refl,
  sym, ap, ◌∙◌, All, contains, contains_text, whole_lines, Bool-cases, Option-cases, ◌≢◌, eq_iff,
  inl, inr, subst,
}
use bypath.Gateway.Hosts.{
  Net, Ip, newline, marker, is_intercepted, answer_of, pin_line, pin_host_to_etc_hosts,
  unpin_hosts_from_etc_hosts, first_address, or_public,
}
use bypath.Gateway.Hosts.Lines.{
  IsLine, unmarked, unpinned_of, pinned-lines, unpinned-lines, unpinned-pinned,
}

-- A name server that gives no address to take.
pub data Rejected (net : Net) (hostname ns : String) : Type 0 where
  failed : net.lookup_host ns hostname ≡ none → Rejected net hostname ns
  no_answer : net.lookup_host ns hostname ≡ some [] → Rejected net hostname ns
  intercepted :
      (ip : String) (more : List String)
      → net.lookup_host ns hostname ≡ some (ip ∷ more)
      → is_intercepted net ip ≡ true
      → Rejected net hostname ns

-- The address that the name servers of a list give for a host: that of the first server that is not
-- rejected, or none.
pub data Found (net : Net) (hostname : String) : List String → String → Type 0 where
  exhausted : Found net hostname [] ""
  passed :
      {ns : String} {servers : List String} {ip : String}
      → Rejected net hostname ns
      → Found net hostname servers ip
      → Found net hostname (ns ∷ servers) ip
  found :
      {ns : String} {servers : List String}
      → (ip : String) (more : List String) → net.lookup_host ns hostname ≡ some (ip ∷ more)
      → is_intercepted net ip ≡ false
      → Found net hostname (ns ∷ servers) ip

-- Why a host is not pinned: it is an address, no name server gives an address for it, or the file
-- cannot be written.
pub data Unpinnable (net : Net) (servers : List String) (writes : Bool) (hostname : String)
    : Type 0 where
  is_address : (ip : Ip) → net.parse_ip hostname ≡ some ip → Unpinnable net servers writes hostname
  no_address : Found net hostname servers "" → Unpinnable net servers writes hostname
  unwritable : writes ≡ false → Unpinnable net servers writes hostname

-- What `pinHostToEtcHosts` leaves of a file, and what it returns.
pub data Pins (net : Net) (servers : List String) (writes : Bool) (hostname first : String)
    (rest : List String) : Option String × String → Type 0 where
  kept :
      Unpinnable net servers writes hostname
      → Pins net servers writes hostname first rest (some (whole_lines newline (first ∷ rest)), "")
  pins :
      {ip : String}
      → Found net hostname servers ip
      → ip ≢ ""
      → net.parse_ip hostname ≡ none
      → writes ≡ true
      → Pins net servers writes hostname first rest (
        some (
            whole_lines newline
              ((first ∷ unpinned_of hostname rest) ++ (pin_line ip hostname ∷ []))),
        ip,
      )

module _ (net : Net) (hostname : String) where
  first_address-Found :
      (servers : List String) → Found net hostname servers (first_address net hostname servers)
  unfolding first_address answer_of
  first_address-Found [] = exhausted
  first_address-Found (ns ∷ servers) = elim (Option-cases (net.lookup_host ns hostname)) [
    | inl e ↦ rw e (passed (failed e) (first_address-Found servers))
    | inr ([], e) ↦ rw e (passed (no_answer e) (first_address-Found servers))
    | inr (ip ∷ more, e) ↦ elim (Bool-cases (is_intercepted net ip)) [
      | inl h ↦ rw e (rw h (passed (intercepted ip more e h) (first_address-Found servers)))
      | inr h ↦ rw e (rw h (found ip more e h))
    ]
  ]

  Found-IsLine :
      ((ns : String) (answers : List String)
        → net.lookup_host ns hostname ≡ some answers
        → All IsLine answers)
      → {servers : List String} {ip : String} → Found net hostname servers ip
      → IsLine ip
  unfolding contains
  Found-IsLine plain exhausted = refl
  Found-IsLine plain (passed r f) = Found-IsLine plain f
  Found-IsLine plain (found {ns = ns} ip more e h) = (plain ns (ip ∷ more) e).0

module _ (net : Net) (dns_upstream : List String) (writes : Bool) (hostname first : String)
    (rest : List String) where
  -- For a file of whole lines whose first line is no pin: where the host is an address, no name server
  -- gives an address for it, or the file cannot be written, a pin leaves the file as it is and returns
  -- no address. In every other case it takes the first address of the name servers, in their order,
  -- that is not loopback or private, puts its line behind the others and returns it; and it takes out
  -- the lines of pins that contain the host's name, those of longer names too.
  pub pin_host_to_etc_hosts-Pins :
      All IsLine (first ∷ rest)
      → contains_text first marker ≡ false
      → Pins net (or_public dns_upstream) writes hostname first rest (
          pin_host_to_etc_hosts net dns_upstream writes hostname
            (some (whole_lines newline (first ∷ rest))))
  unfolding pin_host_to_etc_hosts
  pin_host_to_etc_hosts-Pins lines fresh =
      let is = first_address-Found net hostname (or_public dns_upstream) in
      elim (Option-cases (net.parse_ip hostname)) [
        | inr (a, e) ↦ rw (e, pin_host_to_etc_hosts) (kept (is_address a e))
        | inl e ↦ elim (Bool-cases (first_address net hostname (or_public dns_upstream) == "")) [
          | inl h ↦
              rw (e, pin_host_to_etc_hosts)
                (rw (h, pin_host_to_etc_hosts)
                  (kept (
                    no_address (
                      subst (Found net hostname (or_public dns_upstream)) ((eq_iff _ "").0 h) is))))
          | inr h ↦ elim (Bool-cases writes) [
            | inr w ↦
                rw (e, pin_host_to_etc_hosts)
                  (rw (h, pin_host_to_etc_hosts)
                    (rw (w, pin_host_to_etc_hosts) (kept (unwritable refl))))
            | inl w ↦
                rw (e, pin_host_to_etc_hosts)
                  (rw (h, pin_host_to_etc_hosts)
                    (rw (w, pin_host_to_etc_hosts)
                      (rw (pinned-lines _ hostname first rest lines (rw fresh refl))
                        (pins is (λ same. cc (sym h ∙ (eq_iff _ "").1 same)) e refl))))
          ]
        ]
      ]

  -- When the pins are taken out behind a pin, /etc/hosts holds the lines that it had before, less
  -- those of pins, if its first line is none and no name server answers with a newline.
  pub unpin_hosts_from_etc_hosts-pin :
      IsLine hostname
      → ((ns : String) (answers : List String)
          → net.lookup_host ns hostname ≡ some answers
          → All IsLine answers)
      → All IsLine (first ∷ rest)
      → contains_text first marker ≡ false
      → unpin_hosts_from_etc_hosts true
          (pin_host_to_etc_hosts net dns_upstream writes hostname
            (some (whole_lines newline (first ∷ rest)))).0
        ≡ some (whole_lines newline (first ∷ unmarked rest))
  unfolding unpin_hosts_from_etc_hosts
  unpin_hosts_from_etc_hosts-pin host plain lines fresh =
      undone (pin_host_to_etc_hosts-Pins lines fresh)
    where
      undone :
          {r : Option String × String}
          → Pins net (or_public dns_upstream) writes hostname first rest r
          → unpin_hosts_from_etc_hosts true r.0 ≡ some (whole_lines newline (first ∷ unmarked rest))
      undone (kept f) = ap some (unpinned-lines first rest lines fresh)
      undone (pins f n e w) = ap some (
          unpinned-pinned _ hostname first rest (Found-IsLine net hostname plain f) host lines
            fresh)
