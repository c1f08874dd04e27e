-- ===== src/Engine/Manager.antt =====
-- internal/engine/manager.go: where the binary of an engine comes from. What the system says is an
-- argument, also how a download ends.
pub mod Known
mod Tests
use bypath.Base.{
  String, string_eq, Bool, true, false, not, ◌||◌, ◌==◌, ◌<>◌, if◌then◌else◌, List, [], ◌∷◌, Option,
  none, some, lookup, insert, Dict, Result, ok, err, ◌>>=◌, has_suffix,
}
use bypath.Config.{EnginesConfig}
use bypath.Tunnel.Json.{switch}

-- `Engine`, without its field `Version`, which is never set
pub record Binary : Type 0 where
  pub name : String
  pub path : String
  pub source : String

-- `Manager`
pub record EngineManager : Type 0 where
  pub config : EnginesConfig
  pub engines : Dict Binary
  pub ssh_pass_available : Bool

-- What the system says: the path of a binary in PATH; whether a path is a file, and no directory;
-- whether a path exists behind a download; whether a download from an address to a path succeeds; its
-- name and architecture.
pub record Machine : Type 0 where
  pub look_path : String → Option String
  pub is_file : String → Bool
  pub exists : String → Bool
  pub downloads : String → String → Bool
  pub goos : String
  pub goarch : String

pub data EngineError : Type 0 where
  from_packages unknown_engine : String → EngineError
  not_downloaded not_in_archive : EngineError

-- `filepath.Join` of a directory whose path is clean
unfoldable pub join_path : String → String → String
join_path directory name = if directory == "" then name else directory <> ("/" <> name)

-- the archives that `getDownloadURL` names
abbrev pub sing_box_file : Machine → String
sing_box_file machine =
    let arch = if machine.goarch == "arm" then "armv7" else machine.goarch in
    let ext = if machine.goos == "windows" then ".zip" else ".tar.gz" in
    "sing-box-1.13.0-" <> (machine.goos <> ("-" <> (arch <> ext)))

abbrev pub xray_file : Machine → String
xray_file machine =
    let arch =
      switch machine.goarch (("amd64", "64") ∷ ("arm64", "arm64-v8a") ∷ ("arm", "arm32-v7a") ∷ [])
        "64" in
    let os_name = if machine.goos == "windows" then "windows" else "linux" in
    "Xray-" <> (os_name <> ("-" <> (arch <> ".zip")))

-- `getDownloadURL`: the address and the file
unfoldable pub get_download_url : Machine → String → Result EngineError (String × String)
get_download_url machine name =
    if name == "sing-box"
    then ok (
      "https://github.com/SagerNet/sing-box/releases/download/v1.13.0/" <> sing_box_file machine,
      sing_box_file machine,
    )
    else if name == "xray"
    then ok (
      "https://github.com/XTLS/Xray-core/releases/download/v25.1.1/" <> xray_file machine,
      xray_file machine,
    )
    else if name == "wireguard-go" || name == "openvpn"
    then err (from_packages name)
    else err (unknown_engine name)

-- the path of the binary behind a download: an archive was extracted beside itself
unfoldable pub binary_path : Machine → String → String → String → String
binary_path machine directory name dest_name =
    let binary_name = if machine.goos == "windows" then name <> ".exe" else name in
    if has_suffix dest_name ".zip" || has_suffix dest_name ".tar.gz" || has_suffix dest_name ".tgz"
    then join_path directory binary_name
    else join_path directory dest_name

abbrev succeeded : EngineError → Bool → Result EngineError Bool
succeeded e true = ok true
succeeded e false = err e

-- `download`
unfoldable pub download : Machine → EnginesConfig → String → Result EngineError Binary
download machine config name = do
  (url, dest_name) ← get_download_url machine name
  downloaded ←
      succeeded not_downloaded (machine.downloads url (join_path config.directory dest_name))
  found ←
      succeeded not_in_archive
        (machine.exists (binary_path machine config.directory name dest_name))
  ok (record {
    name = name;
    path = binary_path machine config.directory name dest_name;
    source = "downloaded";
  })

-- the loop of `resolve` over PATH
unfoldable pub in_path : Machine → String → List String → Option Binary
in_path machine name [] = none
in_path machine name (bin ∷ binaries) =
    let rest = in_path machine name binaries in
    elim (machine.look_path bin) [
      | some path ↦ some (record { name = name; path = path; source = "system" })
      | none ↦ rest
    ]

-- the loop of `resolve` over the directory of the engines
unfoldable pub in_directory : Machine → String → String → List String → Option Binary
in_directory machine directory name [] = none
in_directory machine directory name (bin ∷ binaries) =
    let rest = in_directory machine directory name binaries in
    let path = join_path directory bin in
    if machine.is_file path
    then some (record { name = name; path = path; source = "local" })
    else rest

abbrev pub first_found : Option Binary → Option Binary → Option Binary
first_found none other = other
first_found (some b) other = some b

-- `resolve`
unfoldable pub resolve : Machine → EnginesConfig → String → List String → Option Binary
resolve machine config name binaries =
    let system = in_path machine name binaries in
    let own = in_directory machine config.directory name binaries in
    if config.prefer_system then first_found system own else first_found own system

-- the engines that `Init` looks for, with the names of their binaries
abbrev pub supported : Dict (List String)
supported =
    ("sing-box", "sing-box" ∷ "sing-box.exe" ∷ [])
    ∷ ("xray", "xray" ∷ "xray.exe" ∷ [])
    ∷ ("wireguard-go", "wireguard-go" ∷ "wireguard-go.exe" ∷ "wireguard.exe" ∷ [])
    ∷ ("openvpn", "openvpn" ∷ "openvpn.exe" ∷ [])
    ∷ []

abbrev pub with_engine : Option Binary → String → EngineManager → EngineManager
with_engine none name m = m
with_engine (some b) name m = record m { engines = insert name b m.engines }

-- the loop of `Init`
unfoldable pub detect : Machine → Dict (List String) → EngineManager → EngineManager
detect machine [] m = m
detect machine ((name, binaries) ∷ rest) m =
    detect machine rest (with_engine (resolve machine m.config name binaries) name m)

abbrev system_ssh : Option String → Option Binary
system_ssh none = none
system_ssh (some path) = some (record { name = "ssh"; path = path; source = "system" })

abbrev is_found : Option String → Bool
is_found none = false
is_found (some path) = true

-- `Init`, where its directory can be made
unfoldable pub init : Machine → EngineManager → EngineManager
init machine m =
    record (with_engine (system_ssh (machine.look_path "ssh")) "ssh" (detect machine supported m)) {
      ssh_pass_available = is_found (machine.look_path "sshpass");
    }

-- what `Get` makes of a download
unfoldable pub kept :
    String → EngineManager → Result EngineError Binary → EngineManager × Result EngineError Binary
kept name m (ok b) = (record m { engines = insert name b m.engines }, ok b)
kept name m (err e) = (m, err e)

-- `Get`
unfoldable pub get : Machine → String → EngineManager → EngineManager × Result EngineError Binary
get machine name m =
    let fetched = kept name m (download machine m.config name) in
    elim (lookup name m.engines) [ some b ↦ (m, ok b) | none ↦ fetched ]
