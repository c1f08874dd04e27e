-- ===== src/Geo.antt =====
-- internal/geo/downloader.go: which files of geographic data are fetched, and which are there. Times are in
-- seconds; the directory is the names of its files with the times when they were written.
pub mod Available
mod Tests
use Prim.Native.String.{[], ◌∷◌}
use bypath.Base.{
  ℕ, zero, suc, ◌-◌, String, string_eq, Bool, true, false, not, ◌==◌, ◌<>◌, ltb, if◌then◌else◌,
  List, [], ◌∷◌, Option, none, some, Dict, lookup, insert, map, select, has_prefix,
}

-- What a call finds: whether its directory can be made, whether a download of an address succeeds, and
-- the time.
pub record Net : Type 0 where
  pub makes_directory : Bool
  pub fetches : String → Bool
  pub time : ℕ

-- the loop of `strings.ReplaceAll`, where `skip` letters of a match are still to be passed over
unfoldable pub replace_from : ℕ → String → String → ℕ → String → String
replace_from length old new skip [] = []
replace_from length old new (suc skip) (c ∷ s) = replace_from length old new skip s
replace_from length old new zero (c ∷ s) =
    let passed = replace_from length old new (length - 1) s in
    let kept = replace_from length old new 0 s in
    if has_prefix (c ∷ s) old then new <> passed else String.◌∷◌ c kept

-- `strings.ReplaceAll(urlTemplate, "{country}", country)`
abbrev pub url_of : String → String → String
url_of template country = replace_from 9 "{country}" country 0 template

-- `needsUpdate`
unfoldable pub needs_update : ℕ → ℕ → String → Dict ℕ → Bool
needs_update time max_age name files = elim (lookup name files) [
  | none ↦ true
  | some written ↦ ltb max_age (time - written)
]

-- `downloadToFile`, which leaves nothing of a download that fails
unfoldable pub download_to_file : Net → String → String → Dict ℕ → Dict ℕ
download_to_file net url name files = if net.fetches url then insert name net.time files else files

-- the loops over the files, each with its address and its name: the directory, and whether there is no
-- error
unfoldable pub download_each : Net → ℕ → List (String × String) → Dict ℕ → Dict ℕ × Bool
download_each net max_age [] files = (files, true)
download_each net max_age ((url, name) ∷ rest) files =
    let after = download_each net max_age rest (download_to_file net url name files) in
    let skipped = download_each net max_age rest files in
    if not (needs_update net.time max_age name files)
    then skipped
    else if net.fetches url
    then after
    else (after.0, false)

abbrev pub geosite_name : String → String
geosite_name country = "geosite-" <> (country <> ".srs")

abbrev pub geosite_files : String → List String → List (String × String)
geosite_files template countries = map (λ c. (url_of template c, geosite_name c)) countries

abbrev pub geoip_files : String → List String → List (String × String)
geoip_files template countries = map (λ c. (url_of template c, "geoip-" <> (c <> ".srs"))) countries

-- what comes before the loops
abbrev pub in_directory : Net → Dict ℕ → Dict ℕ × Bool → Dict ℕ × Bool
in_directory net files done = if not net.makes_directory then (files, false) else done

-- `DownloadGeositeFiles`
unfoldable pub download_geosite_files : Net → String → List String → ℕ → Dict ℕ → Dict ℕ × Bool
download_geosite_files net template [] max_age files = (files, true)
download_geosite_files net template (c ∷ cs) max_age files =
    in_directory net files (download_each net max_age (geosite_files template (c ∷ cs)) files)

-- `DownloadGeoipFiles`
unfoldable pub download_geoip_files : Net → String → List String → ℕ → Dict ℕ → Dict ℕ × Bool
download_geoip_files net template [] max_age files = (files, true)
download_geoip_files net template (c ∷ cs) max_age files =
    in_directory net files (download_each net max_age (geoip_files template (c ∷ cs)) files)

-- the files of `DownloadXrayGeoFiles`
abbrev pub xray_files : List (String × String)
xray_files =
    ("https://github.com/v2fly/geoip/releases/latest/download/geoip.dat", "geoip.dat")
    ∷ (
      "https://github.com/v2fly/domain-list-community/releases/latest/download/dlc.dat",
      "geosite.dat",
    )
    ∷ []

-- `DownloadXrayGeoFiles`
unfoldable pub download_xray_geo_files : Net → ℕ → Dict ℕ → Dict ℕ × Bool
download_xray_geo_files net max_age files =
    in_directory net files (download_each net max_age xray_files files)

abbrev pub is_there : String → Dict ℕ → Bool
is_there name files = elim (lookup name files) [ none ↦ false | some t ↦ true ]

-- `ValidateGeositeFiles`
unfoldable pub validate_geosite_files : List String → Dict ℕ → List String
validate_geosite_files countries files = select (λ c. is_there (geosite_name c) files) countries
