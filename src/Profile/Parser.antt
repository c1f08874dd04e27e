-- ===== src/Profile/Parser.antt =====
-- internal/profile/parser.go: proxy URIs. `net/url`, base64 and JSON are the parameter `Decoders`.
pub mod Interface
pub mod Links
pub mod Good
pub mod Fits
mod Tests
use bypath.Base.{
  ℤ, pos, int_eq, String, string_eq, Bool, true, false, not, ◌&&◌, ◌||◌, Option, none, some,
  if◌then◌else◌, ◌==◌, ◌<>◌, contains, has_prefix, trim_prefix, trim_space, cut_first, cut_last,
  atoi, format_int, Result, ok, err, ◌>>=◌,
}
use bypath.Profile.{Link, zero_link}
use bypath.Profile.Parser.Links.{
  vmess_link, vless_link, trojan_link, shadowsocks_link, wireguard_link, ssh_link, socks5_link,
  http_proxy_link,
}
use bypath.Profile.Parser.Interface.{
  Json, number, quoted, other, Vmess, User, Url, username, password, query_get, Decoders,
  ParseError, vmess_base64, vmess_json, invalid_uri, ss_base64, ss_format, ss_server, missing_host,
  not_a_proxy, unsupported,
}

abbrev pub or_else {ℓ} : {A : Type ℓ} → Option A → Option A → Option A
or_else (some a) _ = some a
or_else none o = o

abbrev pub or_error {ℓ} : {A : Type ℓ} → ParseError → Option A → Result ParseError A
or_error e none = err e
or_error e (some a) = ok a

module _ (lib : Decoders) where
  open lib use {
    parse_url, std_base64, url_base64, raw_std_base64, raw_url_base64, query_unescape,
    parse_vmess_json,
  }

  -- `parseVmess`
  unfoldable pub parse_vmess : String → Result ParseError Link
  unfolding vmess_link trim_prefix
  parse_vmess uri = do
    let raw = trim_prefix uri "vmess://"
    decoded ←
        or_error vmess_base64
          (or_else (std_base64 raw) (or_else (url_base64 raw) (raw_std_base64 raw)))
    v ← or_error vmess_json (parse_vmess_json decoded)
    ok (vmess_link uri v)

  -- `parseVless`
  unfoldable pub parse_vless : String → Result ParseError Link
  unfolding vless_link
  parse_vless uri = do u ← or_error invalid_uri (parse_url uri); ok (vless_link uri u)

  -- `parseTrojan`
  unfoldable pub parse_trojan : String → Result ParseError Link
  unfolding trojan_link
  parse_trojan uri = do u ← or_error invalid_uri (parse_url uri); ok (trojan_link uri u)

  -- the part of `parseShadowsocks` for `base64(method:password)@host:port`
  unfoldable pub ss_split : String → String → Result ParseError (String × String × String × ℤ)
  ss_split user_info server_info = do
    decoded ← or_error ss_base64 (or_else (raw_url_base64 user_info) (std_base64 user_info))
    (method, secret) ← or_error ss_format (cut_first b':' decoded)
    u ← or_error ss_server (parse_url ("dummy://" <> server_info))
    ok (method, secret, u.hostname, atoi u.port)

  -- the part for `base64(method:password@host:port)`
  unfoldable pub ss_whole : String → Result ParseError (String × String × String × ℤ)
  ss_whole raw = do
    decoded ← or_error ss_base64 (raw_url_base64 raw)
    u ← or_error ss_server (parse_url ("ss://" <> decoded))
    ok (username u, password u, u.hostname, atoi u.port)

  abbrev pub ss_fields : String → Result ParseError (String × String × String × ℤ)
  ss_fields raw = elim (cut_last b'@' raw) [
    | some (user_info, server_info) ↦ ss_split user_info server_info
    | none ↦ ss_whole raw
  ]

  -- the text before the last `#`, and the unescaped remark behind it
  abbrev pub ss_remark : String → String × String
  ss_remark raw = elim (cut_last b'#' raw) [
    | none ↦ (raw, query_unescape "")
    | some (before, remark) ↦ (before, query_unescape remark)
  ]

  -- `parseShadowsocks`
  unfoldable pub parse_shadowsocks : String → Result ParseError Link
  unfolding trim_prefix cut_last cut_first atoi ss_split ss_whole shadowsocks_link
  parse_shadowsocks uri = do
    let (raw, remark) = ss_remark (trim_prefix uri "ss://")
    (method, secret, host, port) ← ss_fields raw
    ok (shadowsocks_link uri remark method secret host port)

  -- `parseWireguard`
  unfoldable pub parse_wireguard : String → Result ParseError Link
  unfolding wireguard_link
  parse_wireguard uri = do u ← or_error invalid_uri (parse_url uri); ok (wireguard_link uri u)

  -- `parseSSH`
  unfoldable pub parse_ssh : String → Result ParseError Link
  unfolding ssh_link
  parse_ssh uri = do
    u ← or_error invalid_uri (parse_url uri)
    host ← or_error missing_host (if u.hostname == "" then none else some u.hostname)
    ok (ssh_link uri u host)

  -- the scheme `socks` in place of which `socks5` is parsed
  abbrev pub normalized_socks : String → String
  normalized_socks uri =
      if has_prefix uri "socks://" then "socks5://" <> trim_prefix uri "socks://" else uri

  -- `parseSocks5`
  unfoldable pub parse_socks5 : String → Result ParseError Link
  unfolding socks5_link
  parse_socks5 uri = do
    u ← or_error invalid_uri (parse_url (normalized_socks uri))
    ok (socks5_link uri u)

  -- `parseHTTPProxy`
  unfoldable pub parse_http_proxy : String → Result ParseError Link
  unfolding http_proxy_link
  parse_http_proxy uri = do u ← or_error invalid_uri (parse_url uri); ok (http_proxy_link uri u)

  -- `isProxyURI`
  unfoldable pub is_proxy_uri : String → Bool
  is_proxy_uri uri = elim (parse_url uri) [
    | none ↦ false
    | some u ↦ not (u.port == "") && (u.path == "" || u.path == "/")
  ]

  -- the cases of `ParseURI`, on the trimmed text
  unfoldable pub dispatch : String → Result ParseError Link
  dispatch uri =
      if has_prefix uri "vmess://"
      then parse_vmess uri
      else if has_prefix uri "vless://"
      then parse_vless uri
      else if has_prefix uri "trojan://"
      then parse_trojan uri
      else if has_prefix uri "ss://"
      then parse_shadowsocks uri
      else if has_prefix uri "wireguard://" || has_prefix uri "wg://"
      then parse_wireguard uri
      else if has_prefix uri "ssh://"
      then parse_ssh uri
      else if has_prefix uri "socks5://" || has_prefix uri "socks://"
      then parse_socks5 uri
      else if has_prefix uri "http://" || has_prefix uri "https://"
      then if contains b'@' uri || is_proxy_uri uri then parse_http_proxy uri else err not_a_proxy
      else err unsupported

  -- `ParseURI`
  unfoldable pub parse_uri : String → Result ParseError Link
  unfolding dispatch
  parse_uri uri = dispatch (trim_space uri)
