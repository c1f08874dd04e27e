-- ===== src/Engine/Manager/Tests.antt =====
-- A machine without engines, and one with xray in its directory.
use bypath.Base.{
  string_eq, true, false, ◌==◌, [], ◌∷◌, none, some, lookup, ok, err, ◌≡◌, refl, has_suffix,
}
use bypath.Config.{EnginesConfig}
use bypath.Tunnel.Json.{switch}
use bypath.Engine.Manager.{
  Binary, EngineManager, Machine, from_packages, get, init, detect, resolve, in_path, in_directory,
  download, kept, get_download_url, binary_path, join_path,
}
use bypath.Engine.Manager.Known.{IsFrom, initial, directly, behind, get-get}

abbrev own : EnginesConfig
own = record {
  directory = "engines";
  prefer_system = true;
  preferred_engine = "";
  fallback = record { enabled = true; timeout = "10s"; order = [] };
}

abbrev bare : Machine
bare = record {
  look_path = λ bin. none;
  is_file = λ path. false;
  exists = λ path. path == "engines/xray";
  downloads = λ url path. true;
  goos = "linux";
  goarch = "arm64";
}

abbrev filled : Machine
filled = record bare {
  is_file = λ path. path == "engines/xray";
  look_path = λ bin. some "/usr/bin/xray";
}

abbrev empty : EngineManager
empty = record { config = own; engines = []; ssh_pass_available = false }

abbrev xray : Binary
xray = record { name = "xray"; path = "engines/xray"; source = "downloaded" }

xray_url :
    get_download_url bare "xray"
    ≡ ok (
      "https://github.com/XTLS/Xray-core/releases/download/v25.1.1/Xray-linux-arm64-v8a.zip",
      "Xray-linux-arm64-v8a.zip",
    )
unfolding get_download_url switch
xray_url = refl

xray_local : resolve bare own "xray" ("xray" ∷ []) ≡ none
unfolding resolve in_path in_directory
xray_local = refl

downloaded : (get bare "xray" (init bare empty)).1 ≡ ok xray
unfolding get kept download get_download_url binary_path join_path init detect resolve in_path
    in_directory lookup has_suffix switch
downloaded = refl

by_package : (get bare "openvpn" (init bare empty)).1 ≡ err (from_packages "openvpn")
unfolding get kept download get_download_url init detect resolve in_path in_directory lookup
by_package = refl

abbrev later : EngineManager
later = (get filled "sing-box" (get bare "xray" (init bare empty)).0).0

get-get_example :
    IsFrom (bare ∷ bare ∷ []) (get bare "xray" (init bare empty)).0.config.directory "xray" xray
    × (get filled "xray" later ≡ (later, ok xray))
get-get_example =
    get-get bare filled "xray" (initial bare) downloaded (behind filled "sing-box" directly)
