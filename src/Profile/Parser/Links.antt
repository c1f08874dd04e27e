-- ===== src/Profile/Parser/Links.antt =====
-- The links that the parsers of internal/profile/parser.go make of what is decoded.
use bypath.Base.{
  ℤ, pos, int_eq, String, string_eq, true, ◌||◌, if◌then◌else◌, ◌==◌, ◌<>◌, atoi, format_int,
}
use bypath.Profile.{Link, zero_link}
use bypath.Profile.Parser.Interface.{
  Json, number, quoted, other, Vmess, Url, username, password, query_get,
}

-- `toInt`
unfoldable pub to_int : Json → ℤ
unfolding atoi
to_int (number n) = n
to_int (quoted s) = atoi s
to_int other = pos 0

-- `if s == "" { s = d }`
abbrev pub or_default : String → String → String
or_default d s = if s == "" then d else s

abbrev pub or_port : ℤ → ℤ → ℤ
or_port d n = if n == pos 0 then d else n

-- `if link.Remark == "" { link.Remark = fmt.Sprintf(…) }`, behind a prefix
unfoldable pub default_remark : String → Link → Link
default_remark prefix l = record l {
  remark = if l.remark == "" then prefix <> l.address <> ":" <> format_int l.port else l.remark;
}

-- the link that `parse_vmess` makes
unfoldable pub vmess_link : String → Vmess → Link
unfolding default_remark to_int
vmess_link uri v = default_remark "" (record zero_link {
  protocol = "vmess";
  raw_uri = uri;
  remark = v.ps;
  address = v.add;
  port = to_int v.port;
  uuid = v.id;
  alter_id = to_int v.aid;
  security = or_default "auto" v.scy;
  network = or_default "tcp" v.net;
  tls = v.tls == "tls";
  sni = v.sni;
  path = v.path;
  host = v.host;
})

-- the link that `parse_vless` makes
unfoldable pub vless_link : String → Url → Link
unfolding default_remark atoi
vless_link uri u =
    let get = query_get u in
    default_remark "" (record zero_link {
      protocol = "vless";
      raw_uri = uri;
      remark = u.fragment;
      address = u.hostname;
      port = atoi u.port;
      uuid = username u;
      network = or_default "tcp" (get "type");
      security = get "security";
      tls = get "security" == "tls" || get "security" == "reality";
      insecure = get "insecure" == "1" || get "allowInsecure" == "1";
      sni = get "sni";
      path = get "path";
      host = get "host";
      flow = get "flow";
      reality_public_key = get "pbk";
      reality_short_id = get "sid";
      fingerprint = get "fp";
    })

-- the link that `parse_trojan` makes
unfoldable pub trojan_link : String → Url → Link
unfolding default_remark atoi
trojan_link uri u =
    let get = query_get u in
    default_remark "" (record zero_link {
      protocol = "trojan";
      raw_uri = uri;
      remark = u.fragment;
      address = u.hostname;
      port = atoi u.port;
      uuid = username u;
      tls = true;
      network = or_default "tcp" (get "type");
      sni = get "sni";
      path = get "path";
      host = get "host";
    })

-- the link that `parse_shadowsocks` makes
unfoldable pub shadowsocks_link : String → String → String → String → String → ℤ → Link
unfolding default_remark
shadowsocks_link uri remark method secret host port = default_remark "" (record zero_link {
  protocol = "shadowsocks";
  raw_uri = uri;
  remark = remark;
  address = host;
  port = port;
  security = method;
  uuid = secret;
})

-- the link that `parse_wireguard` makes
unfoldable pub wireguard_link : String → Url → Link
unfolding default_remark atoi
wireguard_link uri u = default_remark "wg-" (record zero_link {
  protocol = "wireguard";
  raw_uri = uri;
  remark = u.fragment;
  address = u.hostname;
  port = atoi u.port;
  private_key = username u;
  endpoint = u.hostname <> ":" <> format_int (atoi u.port);
  public_key = query_get u "publickey";
})

-- the link that `parse_ssh` makes
unfoldable pub ssh_link : String → Url → String → Link
unfolding default_remark
ssh_link uri u host = default_remark "ssh-" (record zero_link {
  protocol = "ssh";
  raw_uri = uri;
  remark = u.fragment;
  address = host;
  port = or_port (pos 22) (atoi u.port);
  ssh_user = or_default "root" (username u);
  ssh_password = password u;
  ssh_key_path = query_get u "key";
})

-- the link that `parse_socks5` makes
unfoldable pub socks5_link : String → Url → Link
unfolding default_remark atoi
socks5_link uri u = default_remark "socks5-" (record zero_link {
  protocol = "socks5";
  raw_uri = uri;
  remark = u.fragment;
  address = u.hostname;
  port = or_port (pos 1080) (atoi u.port);
  uuid = username u;
  security = password u;
})

-- the link that `parse_http_proxy` makes
unfoldable pub http_proxy_link : String → Url → Link
unfolding default_remark atoi
http_proxy_link uri u =
    let secure = u.scheme == "https" in
    default_remark "http-" (record zero_link {
      protocol = "http";
      raw_uri = uri;
      remark = u.fragment;
      address = u.hostname;
      port = or_port (if secure then pos 443 else pos 8080) (atoi u.port);
      tls = secure;
      uuid = username u;
      security = password u;
    })
