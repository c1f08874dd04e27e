-- ===== src/Profile/Parser/Good.antt =====
-- What the links that the parsers of internal/profile/parser.go make have in their fields.
use text.Mathlib.TextLemmas.{append-ne-nil_of_right_ne-nil, append-eq-nil_iff}
use bypath.Base.{
  Post, ℤ, pos, int_eq, String, string_eq, Bool, true, false, ◌||◌, none, some, if◌then◌else◌, ◌==◌,
  ◌<>◌, ◌≡◌, ◌≢◌, ◌↔◌, ◌⊎◌, inl, inr, refl, sym, ◌∙◌, arith, eq_iff, format_int, ok, ◌>>=◌,
  Bool-cases, atoi, has_prefix,
}
use bypath.Profile.{Link}
use bypath.Profile.Parser.{or_error}
use bypath.Profile.Parser.Links.{
  or_default, or_port, vmess_link, vless_link, trojan_link, shadowsocks_link, wireguard_link,
  ssh_link, socks5_link, http_proxy_link,
}
use bypath.Profile.Parser.Interface.{Url, Vmess, missing_host, username, query_get}

-- The scheme of a text and the protocol of the link that is made of it, with what the protocol's
-- parser guarantees of the fields that the rest of the program reads.
pub data Fits (uri : String) (l : Link) : Type 0 where
  vmess :
      has_prefix uri "vmess://" ≡ true
      → l.protocol ≡ "vmess"
      → l.security ≢ ""
      → l.network ≢ ""
      → Fits uri l
  vless :
      has_prefix uri "vless://" ≡ true
      → l.protocol ≡ "vless"
      → l.network ≢ ""
      → (l.tls ≡ true) ↔ ((l.security ≡ "tls") ⊎ (l.security ≡ "reality"))
      → Fits uri l
  trojan :
      has_prefix uri "trojan://" ≡ true
      → l.protocol ≡ "trojan"
      → l.network ≢ ""
      → l.tls ≡ true
      → Fits uri l
  shadowsocks :
      has_prefix uri "ss://" ≡ true → l.protocol ≡ "shadowsocks" → l.tls ≡ false → Fits uri l
  wireguard :
      (has_prefix uri "wireguard://" || has_prefix uri "wg://") ≡ true
      → l.protocol ≡ "wireguard"
      → l.endpoint ≡ l.address <> ":" <> format_int l.port
      → Fits uri l
  ssh :
      has_prefix uri "ssh://" ≡ true
      → l.protocol ≡ "ssh"
      → l.address ≢ ""
      → l.port ≢ pos 0
      → l.ssh_user ≢ ""
      → Fits uri l
  socks5 :
      (has_prefix uri "socks5://" || has_prefix uri "socks://") ≡ true
      → l.protocol ≡ "socks5"
      → l.port ≢ pos 0
      → Fits uri l
  http :
      (has_prefix uri "http://" || has_prefix uri "https://") ≡ true
      → l.protocol ≡ "http"
      → l.port ≢ pos 0
      → Fits uri l

-- A link as the parser makes it: it keeps the text that it came from, has a name, is in no group,
-- untested, and in no chain.
abbrev pub IsFresh : String → Link → Type 0
IsFresh uri l =
    (l.raw_uri ≡ uri)
    × (l.remark ≢ "")
    × (l.group ≡ "")
    × (l.https_capable ≡ pos 0)
    × (l.chain_proxy ≡ "")
    × (l.listen_port ≡ pos 0)

lit_ne : (a b : String) → (a == b) ≡ false → a ≢ b
lit_ne a b h e = cc (sym h ∙ (eq_iff a b).1 e)

or_default-ne : (d s : String) → d ≢ "" → or_default d s ≢ ""
or_default-ne d s h = ground (arith, eq_iff s "")

or_port-ne : (d n : ℤ) → d ≢ pos 0 → or_port d n ≢ pos 0
or_port-ne d n h = ground (arith, int_eq.test_iff n (pos 0))

remark-ne : (prefix address : String) (port : ℤ) → prefix <> address <> ":" <> format_int port ≢ ""
remark-ne prefix address port = append-ne-nil_of_right_ne-nil prefix (
    append-ne-nil_of_right_ne-nil address
      (λ e. lit_ne ":" "" refl ((append-eq-nil_iff {p = ":"} {q = format_int port}).0 e).0))

named :
    (prefix remark address : String) (port : ℤ)
    → (if remark == "" then prefix <> address <> ":" <> format_int port else remark) ≢ ""
named prefix remark address port = ground (arith, eq_iff remark "", remark-ne prefix address port)

abbrev pub Good : String → Link → Type 0
Good uri l = IsFresh uri l × Fits uri l

pub vmess_link-Good :
    (uri : String) (v : Vmess) → has_prefix uri "vmess://" ≡ true → Good uri (vmess_link uri v)
unfolding vmess_link
vmess_link-Good uri v p = (
  (refl, named "" v.ps v.add _, refl, refl, refl, refl),
  vmess p refl (or_default-ne "auto" v.scy (lit_ne _ _ refl))
      (or_default-ne "tcp" v.net (lit_ne _ _ refl)),
)

or_tls : (s : String) → ((s == "tls" || s == "reality") ≡ true) ↔ ((s ≡ "tls") ⊎ (s ≡ "reality"))
or_tls s = ground (arith, eq_iff s "tls", eq_iff s "reality")

pub vless_link-Good :
    (uri : String) (u : Url) → has_prefix uri "vless://" ≡ true → Good uri (vless_link uri u)
unfolding vless_link
vless_link-Good uri u p = (
  (refl, named "" u.fragment u.hostname _, refl, refl, refl, refl),
  vless p refl (or_default-ne "tcp" (query_get u "type") (lit_ne _ _ refl))
      (or_tls (query_get u "security")),
)

pub trojan_link-Good :
    (uri : String) (u : Url) → has_prefix uri "trojan://" ≡ true → Good uri (trojan_link uri u)
unfolding trojan_link
trojan_link-Good uri u p = (
  (refl, named "" u.fragment u.hostname _, refl, refl, refl, refl),
  trojan p refl (or_default-ne "tcp" (query_get u "type") (lit_ne _ _ refl)) refl,
)

pub shadowsocks_link-Good :
    (uri remark method secret host : String) (port : ℤ)
    → has_prefix uri "ss://" ≡ true
    → Good uri (shadowsocks_link uri remark method secret host port)
unfolding shadowsocks_link
shadowsocks_link-Good uri remark method secret host port p =
    ((refl, named "" remark host port, refl, refl, refl, refl), shadowsocks p refl refl)

pub wireguard_link-Good :
    (uri : String) (u : Url)
    → (has_prefix uri "wireguard://" || has_prefix uri "wg://") ≡ true
    → Good uri (wireguard_link uri u)
unfolding wireguard_link
wireguard_link-Good uri u p =
    ((refl, named "wg-" u.fragment u.hostname _, refl, refl, refl, refl), wireguard p refl refl)

pub ssh_link-Good :
    (uri : String) (u : Url) (host : String)
    → has_prefix uri "ssh://" ≡ true
    → host ≢ ""
    → Good uri (ssh_link uri u host)
unfolding ssh_link
ssh_link-Good uri u host p h = (
  (refl, named "ssh-" u.fragment host _, refl, refl, refl, refl),
  ssh p refl h (or_port-ne (pos 22) (atoi u.port) (ground arith))
      (or_default-ne "root" (username u) (lit_ne _ _ refl)),
)

pub socks5_link-Good :
    (uri : String) (u : Url)
    → (has_prefix uri "socks5://" || has_prefix uri "socks://") ≡ true
    → Good uri (socks5_link uri u)
unfolding socks5_link
socks5_link-Good uri u p = (
  (refl, named "socks5-" u.fragment u.hostname _, refl, refl, refl, refl),
  socks5 p refl (or_port-ne (pos 1080) (atoi u.port) (ground arith)),
)

web_port-ne : (secure : Bool) → (if secure then pos 443 else pos 8080) ≢ pos 0
web_port-ne true = ground arith
web_port-ne false = ground arith

pub http_proxy_link-Good :
    (uri : String) (u : Url)
    → (has_prefix uri "http://" || has_prefix uri "https://") ≡ true
    → Good uri (http_proxy_link uri u)
unfolding http_proxy_link
http_proxy_link-Good uri u p = (
  (refl, named "http-" u.fragment u.hostname _, refl, refl, refl, refl),
  http p refl (or_port-ne _ (atoi u.port) (web_port-ne (u.scheme == "https"))),
)

-- the host check of `parseSSH`
pub ssh_host-Post :
    (uri : String) (u : Url)
    → has_prefix uri "ssh://" ≡ true
    → Post (Good uri) (
        or_error missing_host (if u.hostname == "" then none else some u.hostname) >>= λ host.
        ok (ssh_link uri u host))
ssh_host-Post uri u p = elim (Bool-cases (u.hostname == "")) [
  | inl empty ↦ rw empty tt
  | inr set ↦ rw set (ssh_link-Good uri u u.hostname p (lit_ne u.hostname "" set))
]
