-- ===== src/Engine/Archive.antt =====
-- internal/engine/downloader.go: which files of an archive are written, and where. The formats of the
-- archives are read by the standard library; its entries are an argument here.
pub mod Inside
mod Tests
use bypath.Base.{
  String, string_eq, Bool, true, false, not, ◌||◌, ◌==◌, if◌then◌else◌, List, [], ◌∷◌, Option, none,
  some, split, has_prefix, has_suffix,
}

-- An entry: whether it is a regular file (of a zip file: no directory), whether it can be read, and its
-- name.
pub record ArchiveEntry : Type 0 where
  pub is_file : Bool
  pub is_readable : Bool
  pub name : String

-- the last element of a path that is not empty
unfoldable pub last_element : List String → Option String
last_element [] = none
last_element (s ∷ rest) = elim (last_element rest) [
  | some t ↦ some t
  | none ↦ if s == "" then none else some s
]

-- `filepath.Base`, with `/` as the separator
unfoldable pub base : String → String
base path =
    if path == "" then "." else elim (last_element (split b'/' path)) [ none ↦ "/" | some s ↦ s ]

-- the files that are skipped in either format
unfoldable pub is_no_binary : String → Bool
is_no_binary name =
    has_suffix name ".md"
    || has_suffix name ".txt"
    || has_suffix name ".json"
    || has_prefix name "."

-- and in a zip file
unfoldable pub is_no_binary_of_zip : String → Bool
is_no_binary_of_zip name = is_no_binary name || has_suffix name ".dat" || has_suffix name ".sig"

-- `writes` says whether a file of a name can be created and written in the directory.
module _ (skips : String → Bool) (writes : String → Bool) where
  -- the loop over the entries: the names of the files that it creates, and whether there is no error
  unfoldable pub extract : List ArchiveEntry → List String × Bool
  extract [] = ([], true)
  extract (e ∷ entries) =
      let (names, is_ok) = extract entries in
      let name = base e.name in
      if not e.is_file
      then (names, is_ok)
      else if skips name
      then (names, is_ok)
      else if not e.is_readable
      then ([], false)
      else if not (writes name)
      then (name ∷ [], false)
      else (name ∷ names, is_ok)

-- `extractTarGz`, where each entry can be read
unfoldable pub extract_tar_gz : (String → Bool) → List ArchiveEntry → List String × Bool
extract_tar_gz writes entries = extract is_no_binary writes entries

-- `extractZip`
unfoldable pub extract_zip : (String → Bool) → List ArchiveEntry → List String × Bool
extract_zip writes entries = extract is_no_binary_of_zip writes entries
