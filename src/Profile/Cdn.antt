-- ===== src/Profile/Cdn.antt =====
-- internal/profile/cdn.go: the static heuristic for CDN-fronted links.
use bypath.Base.{
  pos, int_eq, string_eq, ◌==◌, Bool, true, false, not, ◌||◌, if◌then◌else◌, ◌≡◌, ◌≢◌, ◌↔◌, arith,
  eq_iff,
}
use bypath.Profile.{Link}

-- `IsCDNPattern`
unfoldable pub is_cdn_pattern : Link → Bool
is_cdn_pattern link =
    if link.security == "reality"
    then false
    else if not (link.port == pos 443) || not (link.network == "ws") || not link.tls
    then false
    else if link.host == "" || link.host == link.address
    then false
    else true

-- `MarkCDNDetected`
unfoldable pub mark_cdn_detected : Link → Link
mark_cdn_detected link = record link { cdn_detected = is_cdn_pattern link }

-- What the comment of `IsCDNPattern` describes.
record IsFronted (link : Link) : Type 0 where
  not_reality : link.security ≢ "reality"
  https_port : link.port ≡ pos 443
  websocket : link.network ≡ "ws"
  encrypted : link.tls ≡ true
  host_set : link.host ≢ ""
  host_differs : link.host ≢ link.address

is_cdn_pattern_iff : (link : Link) → (is_cdn_pattern link ≡ true) ↔ IsFronted link
unfolding is_cdn_pattern
is_cdn_pattern_iff link = ground (
  arith,
  eq_iff link.security "reality",
  eq_iff link.network "ws",
  eq_iff link.host "",
  eq_iff link.host link.address,
  int_eq.test_iff link.port (pos 443),
)
