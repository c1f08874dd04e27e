-- ===== src/Geo/Tests.antt =====
-- A download of two countries, one of which has an old file.
use bypath.Base.{
  ℕ, String, string_eq, ◌==◌, ◌||◌, true, false, List, [], ◌∷◌, Dict, lookup, insert, select,
  has_prefix, cut_prefix, ◌≡◌, refl,
}
use bypath.Geo.{
  Net, url_of, replace_from, needs_update, download_to_file, download_each, download_geosite_files,
  validate_geosite_files, geosite_name, is_there,
}
use bypath.Geo.Available.{validate_geosite_files-download}

abbrev template : String
template = "https://geo.example/{country}.srs"

abbrev net : Net
net = record {
  makes_directory = true;
  fetches = λ url. url == "https://geo.example/ir.srs";
  time = 1000;
}

abbrev old_files : Dict ℕ
old_files = ("geosite-cn.srs", 10) ∷ []

abbrev countries : List String
countries = "ir" ∷ "cn" ∷ "ru" ∷ []

one_written :
    download_geosite_files net template countries 100 old_files
    ≡ (("geosite-cn.srs", 10) ∷ ("geosite-ir.srs", 1000) ∷ [], false)
unfolding download_geosite_files download_each download_to_file needs_update replace_from lookup
    insert has_prefix cut_prefix
one_written = refl

validate_geosite_files-download_example :
    validate_geosite_files countries (download_geosite_files net template countries 100 old_files).0
    ≡ select (λ c. is_there (geosite_name c) old_files || net.fetches (url_of template c)) countries
validate_geosite_files-download_example =
    validate_geosite_files-download net template 100 countries old_files refl
