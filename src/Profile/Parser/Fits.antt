-- ===== src/Profile/Parser/Fits.antt =====
-- What `ParseURI` guarantees of the links that it returns.
use bypath.Base.{
  true, Bool-cases, inl, inr, Post, Post-bind, of_Post, ℤ, String, string_eq, ◌||◌, Option, ◌≡◌, ok,
  ◌>>=◌, trim_space, trim_prefix, has_prefix, contains, trim_prefix,
}
use bypath.Profile.{Link}
use bypath.Profile.Parser
use bypath.Profile.Parser.{or_error, or_else, normalized_socks, ss_fields, ss_remark}
use bypath.Profile.Parser.Links.{
  vmess_link, vless_link, trojan_link, shadowsocks_link, wireguard_link, socks5_link,
  http_proxy_link,
}
use bypath.Profile.Parser.Interface.{invalid_uri, Decoders, vmess_json, vmess_base64, ParseError}
use bypath.Profile.Parser.Good.{
  Fits, IsFresh, Good, vmess_link-Good, vless_link-Good, trojan_link-Good, shadowsocks_link-Good,
  wireguard_link-Good, ssh_host-Post, socks5_link-Good, http_proxy_link-Good,
}

of_option :
    {A : Type 0} (uri : String) (e : ParseError) (o : Option A) (mk : A → Link)
    → ((a : A) → Good uri (mk a))
    → Post (Good uri) (or_error e o >>= λ a. ok (mk a))
of_option uri e o mk h = Post-bind (Good uri) (or_error e o) (λ a. ok (mk a)) h

module _ (lib : Decoders) where
  parse_vmess-Post :
      (uri : String)
      → has_prefix uri "vmess://" ≡ true
      → Post (Good uri) (Parser.parse_vmess lib uri)
  unfolding Parser.parse_vmess
  parse_vmess-Post uri p =
      let raw = trim_prefix uri "vmess://" in
      Post-bind (Good uri)
        (or_error vmess_base64
          (or_else (lib.std_base64 raw) (or_else (lib.url_base64 raw) (lib.raw_std_base64 raw))))
        (λ decoded.
          or_error vmess_json (lib.parse_vmess_json decoded) >>= λ v. ok (vmess_link uri v))
        (λ decoded.
          of_option uri vmess_json (lib.parse_vmess_json decoded) (vmess_link uri)
            (λ v. vmess_link-Good uri v p))

  parse_ssh-Post :
      (uri : String) → has_prefix uri "ssh://" ≡ true → Post (Good uri) (Parser.parse_ssh lib uri)
  unfolding Parser.parse_ssh
  parse_ssh-Post uri p =
      Post-bind (Good uri) (or_error invalid_uri (lib.parse_url uri)) _ (λ u. ssh_host-Post uri u p)

  parse_shadowsocks-Post :
      (uri : String)
      → has_prefix uri "ss://" ≡ true
      → Post (Good uri) (Parser.parse_shadowsocks lib uri)
  unfolding Parser.parse_shadowsocks
  parse_shadowsocks-Post uri p =
      let (raw, remark) = ss_remark lib (trim_prefix uri "ss://") in
      Post-bind (Good uri) (ss_fields lib raw)
        (λ (f : String × String × String × ℤ). ok (shadowsocks_link uri remark f.0 f.1 f.2 f.3))
        (λ f. shadowsocks_link-Good uri remark f.0 f.1 f.2 f.3 p)

  parse_vless-Post :
      (uri : String)
      → has_prefix uri "vless://" ≡ true
      → Post (Good uri) (Parser.parse_vless lib uri)
  unfolding Parser.parse_vless
  parse_vless-Post uri p =
      of_option uri invalid_uri (lib.parse_url uri) (vless_link uri) (λ u. vless_link-Good uri u p)

  parse_trojan-Post :
      (uri : String)
      → has_prefix uri "trojan://" ≡ true
      → Post (Good uri) (Parser.parse_trojan lib uri)
  unfolding Parser.parse_trojan
  parse_trojan-Post uri p =
      of_option uri invalid_uri (lib.parse_url uri) (trojan_link uri)
        (λ u. trojan_link-Good uri u p)

  parse_wireguard-Post :
      (uri : String)
      → (has_prefix uri "wireguard://" || has_prefix uri "wg://") ≡ true
      → Post (Good uri) (Parser.parse_wireguard lib uri)
  unfolding Parser.parse_wireguard
  parse_wireguard-Post uri p =
      of_option uri invalid_uri (lib.parse_url uri) (wireguard_link uri)
        (λ u. wireguard_link-Good uri u p)

  parse_socks5-Post :
      (uri : String)
      → (has_prefix uri "socks5://" || has_prefix uri "socks://") ≡ true
      → Post (Good uri) (Parser.parse_socks5 lib uri)
  unfolding Parser.parse_socks5
  parse_socks5-Post uri p =
      of_option uri invalid_uri (lib.parse_url (normalized_socks lib uri)) (socks5_link uri)
        (λ u. socks5_link-Good uri u p)

  parse_http_proxy-Post :
      (uri : String)
      → (has_prefix uri "http://" || has_prefix uri "https://") ≡ true
      → Post (Good uri) (Parser.parse_http_proxy lib uri)
  unfolding Parser.parse_http_proxy
  parse_http_proxy-Post uri p =
      of_option uri invalid_uri (lib.parse_url uri) (http_proxy_link uri)
        (λ u. http_proxy_link-Good uri u p)

  dispatch-Post : (uri : String) → Post (Good uri) (Parser.dispatch lib uri)
  unfolding Parser.dispatch
  dispatch-Post uri = elim (Bool-cases (has_prefix uri "vmess://")) [
    | inl e ↦ rw e (parse_vmess-Post uri e)
    | inr e ↦ rw e (elim (Bool-cases (has_prefix uri "vless://")) [
      | inl e ↦ rw e (parse_vless-Post uri e)
      | inr e ↦ rw e (elim (Bool-cases (has_prefix uri "trojan://")) [
        | inl e ↦ rw e (parse_trojan-Post uri e)
        | inr e ↦ rw e (elim (Bool-cases (has_prefix uri "ss://")) [
          | inl e ↦ rw e (parse_shadowsocks-Post uri e)
          | inr e ↦
              rw e (elim (Bool-cases (has_prefix uri "wireguard://" || has_prefix uri "wg://")) [
                | inl e ↦ rw e (parse_wireguard-Post uri e)
                | inr e ↦ rw e (elim (Bool-cases (has_prefix uri "ssh://")) [
                  | inl e ↦ rw e (parse_ssh-Post uri e)
                  | inr e ↦
                      rw e
                        (elim (Bool-cases
                          (has_prefix uri "socks5://" || has_prefix uri "socks://")) [
                            | inl e ↦ rw e (parse_socks5-Post uri e)
                            | inr e ↦
                                rw e
                                  (elim (Bool-cases
                                    (has_prefix uri "http://" || has_prefix uri "https://")) [
                                      | inr e ↦ rw e tt
                                      | inl e ↦
                                          rw e
                                            (elim (Bool-cases
                                              (contains b'@' uri || Parser.is_proxy_uri lib uri)) [
                                                | inl f ↦ rw f (parse_http_proxy-Post uri e)
                                                | inr f ↦ rw f tt
                                              ])
                                    ])
                          ])
                ])
              ])
        ])
      ])
    ])
  ]

  -- A link that `ParseURI` returns keeps the trimmed text that it came from, has a name, is in no
  -- group or chain and untested. Its protocol is that of the text's scheme (ss is shadowsocks, wg
  -- wireguard, socks socks5, https http), and of its other fields this is sure: a network and a security
  -- (vmess), a network, and TLS exactly for tls and reality (vless), a network and TLS (trojan), no TLS
  -- (shadowsocks), an endpoint made of its address and port (wireguard), a host, a user and a port that
  -- is not 0 (ssh), a port that is not 0 (socks5 and http).
  pub parse_uri-Fits :
      (uri : String) {l : Link}
      → Parser.parse_uri lib uri ≡ ok l
      → IsFresh (trim_space uri) l × Fits (trim_space uri) l
  unfolding Parser.parse_uri
  parse_uri-Fits uri h = of_Post (Good (trim_space uri)) _ (dispatch-Post (trim_space uri)) h
