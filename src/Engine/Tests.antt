-- ===== src/Engine/Tests.antt =====
-- Runs of the fallback controller on concrete inputs.
use bypath.Base.{ℕ, select, string_eq, true, [], ◌∷◌, if◌then◌else◌, ◌==◌, ok, err, ◌≡◌, refl}
use bypath.Profile.{zero_link}
use bypath.Config.{FallbackConfig}
use bypath.Engine.Fallback.{Launch, engine_order, start_with_fallback}
use bypath.Engine.Fallback.Falls.{Ends, start_with_fallback-Ends}

-- xray alone is installed
abbrev only_xray : ℕ → Launch
only_xray i = record {
  get = λ name.
      if name == "xray" then ok (record { name = "xray"; path = "/bin/xray" }) else err "missing";
  generate = λ eng link. ok "xray-config.json";
  start = λ path args. ok path;
  port_opens = λ proc. true;
}

abbrev with_fallback : FallbackConfig
with_fallback = record { enabled = true; timeout = "10s"; order = [] }

order_run : engine_order with_fallback "xray" ≡ "xray" ∷ "sing-box" ∷ []
unfolding engine_order select
order_run = refl

start_with_fallback-Ends_example :
    Ends only_xray zero_link true 0 []
      (engine_order with_fallback "")
      (start_with_fallback with_fallback only_xray zero_link "")
start_with_fallback-Ends_example = start_with_fallback-Ends only_xray zero_link with_fallback ""
