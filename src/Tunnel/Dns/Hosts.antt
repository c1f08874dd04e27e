-- ===== src/Tunnel/Dns/Hosts.antt =====
-- The names of the proxy server in the DNS section.
use bypath.Base.{
  String, Bool, true, false, ◌||◌, some, List, [], ◌∷◌, ◌==◌, string_eq, ◌≡◌, ◌≢◌, sym, inl, inr,
  ◌⊎◌, ◌↔◌, Some, Bool-cases, eq_iff, arith, any, subst,
}
use bypath.Profile.{Link}
use bypath.Tunnel.Dns.{host_names, proxy_domains}

-- a name of a list
abbrev pub IsNamed : List String → String → Type 0
IsNamed names c = Some (λ name. name ≡ c) names

module _ (is_ip : String → Bool) where
  -- A name that is taken is one of the candidates, set, no address, and not among those in `seen`.
  host_names-taken :
      (c : String) (seen candidates : List String)
      → IsNamed (host_names is_ip seen candidates) c
      → IsNamed candidates c × (c ≢ "") × (is_ip c ≡ false)
  unfolding host_names
  host_names-taken c seen [] h = elim h [ ]
  host_names-taken c seen (x ∷ xs) h = elim (Bool-cases (x == "" || any (λ name. name == x) seen)) [
    | inl e ↦ later (host_names-taken c seen xs (rw e at h))
    | inr e ↦ elim (Bool-cases (is_ip x)) [
      | inl f ↦ later (host_names-taken c (x ∷ seen) xs (rw (e, f) at h))
      | inr f ↦ taken f e (host_names-taken c (x ∷ seen) xs) (rw (e, f) at h)
    ]
  ]
    where
      later :
          IsNamed xs c × (c ≢ "") × (is_ip c ≡ false)
          → IsNamed (x ∷ xs) c × (c ≢ "") × (is_ip c ≡ false)
      later (named, set, host) = (inr named, set, host)

      taken :
          is_ip x ≡ false
          → (x == "" || any (λ name. name == x) seen) ≡ false
          → (IsNamed (host_names is_ip (x ∷ seen) xs) c
              → IsNamed xs c × (c ≢ "") × (is_ip c ≡ false))
          → IsNamed (x ∷ host_names is_ip (x ∷ seen) xs) c
          → IsNamed (x ∷ xs) c × (c ≢ "") × (is_ip c ≡ false)
      taken f e next (inl same) =
          (inl same, ground (arith, e, same, eq_iff x ""), subst (λ s. is_ip s ≡ false) same f)
      taken f e next (inr more) = later (next more)

  host_names-all :
      (c : String) (seen candidates : List String)
      → IsNamed candidates c
      → c ≢ ""
      → is_ip c ≡ false
      → IsNamed (host_names is_ip seen candidates) c ⊎ (any (λ name. name == c) seen ≡ true)
  unfolding host_names
  host_names-all c seen [] h set host = elim h [ ]
  host_names-all c seen (x ∷ xs) (inl same) set host =
      elim (Bool-cases (x == "" || any (λ name. name == x) seen)) [
        | inl e ↦ rw e (
            inr (
              subst (λ s. any (λ name. name == s) seen ≡ true) same
                (ground (arith, e, set, same, eq_iff x ""))))
        | inr e ↦ rw (e, subst (λ s. is_ip s ≡ false) (sym same) host) (inl (inl same))
      ]
  host_names-all c seen (x ∷ xs) (inr more) set host =
      elim (Bool-cases (x == "" || any (λ name. name == x) seen)) [
        | inl e ↦ rw e (host_names-all c seen xs more set host)
        | inr e ↦ elim (Bool-cases (is_ip x)) [
          | inl f ↦ rw (e, f) (seen_or f (host_names-all c (x ∷ seen) xs more set host))
          | inr f ↦ rw (e, f) (taken_or (host_names-all c (x ∷ seen) xs more set host))
        ]
      ]
    where
      seen_or :
          is_ip x ≡ true
          → IsNamed (host_names is_ip (x ∷ seen) xs) c
            ⊎ ((x == c || any (λ name. name == c) seen) ≡ true)
          → IsNamed (host_names is_ip (x ∷ seen) xs) c ⊎ (any (λ name. name == c) seen ≡ true)
      seen_or f (inl named) = inl named
      seen_or f (inr known) = inr (ground (arith, known, eq_iff x c, f, host))

      taken_or :
          IsNamed (host_names is_ip (x ∷ seen) xs) c
            ⊎ ((x == c || any (λ name. name == c) seen) ≡ true)
          → IsNamed (x ∷ host_names is_ip (x ∷ seen) xs) c ⊎ (any (λ name. name == c) seen ≡ true)
      taken_or (inl named) = inl (inr named)
      taken_or (inr known) = elim (Bool-cases (x == c)) [
        | inl same ↦ inl (inl ((eq_iff x c).0 same))
        | inr other ↦ inr (rw other at known)
      ]

  -- The names that the DNS section resolves directly are exactly the address, the SNI and the host of
  -- the link that are set and are no IP addresses.
  pub proxy_domains_iff :
      (link : Link) (c : String)
      → IsNamed (proxy_domains is_ip (some link)) c
        ↔ (IsNamed (link.address ∷ link.sni ∷ link.host ∷ []) c × (c ≢ "") × (is_ip c ≡ false))
  unfolding proxy_domains
  proxy_domains_iff link c =
      let candidates = link.address ∷ link.sni ∷ link.host ∷ [] in
      (
        host_names-taken c [] candidates,
        λ (named, set, host). elim (host_names-all c [] candidates named set host) [
          | inl taken ↦ taken
          | inr known ↦ ground (arith, known)
        ],
      )
