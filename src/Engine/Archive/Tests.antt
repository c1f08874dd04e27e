-- ===== src/Engine/Archive/Tests.antt =====
-- An archive with a name that points out of its directory.
use bypath.Base.{
  String, string_eq, Bool, true, List, [], ◌∷◌, All, ◌≡◌, refl, split, split_from, has_prefix,
  has_suffix, cut_prefix,
}
use bypath.Engine.Archive.{
  ArchiveEntry, base, last_element, is_no_binary, is_no_binary_of_zip, extract, extract_tar_gz,
  extract_zip,
}
use bypath.Engine.Archive.Inside.{IsInside, extract_zip-IsInside}

abbrev file : String → ArchiveEntry
file name = record { is_file = true; is_readable = true; name = name }

abbrev entries : List ArchiveEntry
entries = file "xray-1/README.md" ∷ file "../../../etc/xray" ∷ file "a/.." ∷ file "geoip.dat" ∷ []

abbrev all_written : String → Bool
all_written name = true

two_in_tar : extract_tar_gz all_written entries ≡ ("xray" ∷ "geoip.dat" ∷ [], true)
unfolding extract_tar_gz extract base last_element is_no_binary split split_from has_prefix
    has_suffix cut_prefix
two_in_tar = refl

one_in_zip : extract_zip all_written entries ≡ ("xray" ∷ [], true)
unfolding extract_zip extract base last_element is_no_binary is_no_binary_of_zip split split_from
    has_prefix has_suffix cut_prefix
one_in_zip = refl

extract_zip-IsInside_example :
    All IsInside (extract_zip all_written entries).0
    × All IsInside (extract_tar_gz all_written entries).0
extract_zip-IsInside_example = extract_zip-IsInside all_written entries
