-- ===== src/Gateway/Connectivity.antt =====
-- `verifyConnection` and `verifyWhitelistRouting` of internal/gateway/gateway.go, on what `curl` says.
use bypath.Base.{
  String, string_eq, Bool, true, false, not, ◌||◌, ◌==◌, if◌then◌else◌, List, Option, none, some,
  any, trim_space,
}
use bypath.Api.Auth.{equal_fold}

-- What a request through the proxy prints: its code, or the body; none for an error.
pub record Curl : Type 0 where
  pub code : String → Option String

-- `err == nil && strings.TrimSpace(string(out)) == c.wantCode`
unfoldable pub has_code : Curl → String → String → Bool
has_code curl url want = elim (curl.code url) [ none ↦ false | some out ↦ trim_space out == want ]

unfoldable pub reaches_internet : Curl → Bool
reaches_internet curl =
    has_code curl "http://www.gstatic.com/generate_204" "204"
    || has_code curl "http://www.msftconnecttest.com/connecttest.txt" "200"
    || has_code curl "http://captive.apple.com/hotspot-detect.html" "200"

abbrev code_or_zero : Option String → String
code_or_zero none = "000"
code_or_zero (some out) = trim_space out

-- `verifyWhitelistRouting`. The requests for addresses behind the first only log.
unfoldable pub verify_whitelist_routing : Curl → List String → Bool
verify_whitelist_routing curl countries =
    let samandehi = code_or_zero (curl.code "https://login.samandehi.ir") in
    if not (any (λ c. equal_fold c "ir") countries)
    then true
    else if samandehi == "403"
    then false
    else if samandehi == "000"
    then false
    else true

-- `verifyConnection`
unfoldable pub verify_connection : Curl → List String → Bool
verify_connection curl countries =
    if not (reaches_internet curl) then false else verify_whitelist_routing curl countries
