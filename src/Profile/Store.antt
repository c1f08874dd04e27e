-- ===== src/Profile/Store.antt =====
-- internal/profile/profile.go: the `Manager` of groups and links, with its directory of files.
-- Each operation returns the new manager and an error (`none` for `nil`). A Go map is a dictionary,
-- and a `range` over it goes through an order that the caller of the model chooses. Every link that
-- reaches the manager is fresh (from `ParseURI` or a file), so a link is owned by one group.
-- The profiles directory maps entry names to contents; group names are taken to be file names.
pub mod Dir
pub mod Names
pub mod Saved
pub mod Shape
pub mod Effect
pub mod Links
pub mod Removal
pub mod Sync
use Prim.Native.String.{[], ◌∷◌}
use bypath.Base.{
  ℕ, ℤ, pos, negsuc, String, string_eq, Bool, true, false, not, ◌&&◌, ◌||◌, List, [], ◌∷◌, ◌++◌,
  map, Option, none, some, if◌then◌else◌, ◌==◌, Dict, lookup, insert, delete, ◌<>◌, trim_space,
  split, length,
}
use bypath.Profile.{Link, Group, regroup}
use bypath.Profile.Cdn.{mark_cdn_detected}
use bypath.Profile.Store.Dir.{
  Content, json, text, unmarshal, Write, write_file, file_name, is_json_name,
}

pub data Error : Type 0 where
  group_not_found link_not_found group_exists subscription_exists : Error
  no_subscriptions no_links_fetched index_out_of_range : Error
  write_failed remove_failed : Error

-- `Manager`, without its lock; `directory` holds the files of the profiles directory
pub record Manager : Type 0 where
  pub directory : Dict Content
  pub groups : Dict Group
  pub active_group : String
  pub active_link : Option Link

-- `link.Remark == remark` in a loop over the links of a group
unfoldable pub find_link : String → List Link → Option Link
find_link remark [] = none
find_link remark (l ∷ ls) = if l.remark == remark then some l else find_link remark ls

unfoldable pub find_in_groups : String → List Group → Option Link
unfolding find_link
find_in_groups remark [] = none
find_in_groups remark (g ∷ gs) =
    let rest = find_in_groups remark gs in
    elim (find_link remark g.links) [ some l ↦ some l | none ↦ rest ]

-- `GetLink`; `order` is the order in which `range m.groups` goes
unfoldable pub get_link : List Group → String → Manager → Option Link
unfolding find_link find_in_groups
get_link order remark m =
    let others = find_in_groups remark order in
    elim (lookup m.active_group m.groups) [
      | none ↦ others
      | some g ↦ elim (find_link remark g.links) [ some l ↦ some l | none ↦ others ]
    ]

-- `saveGroup`: the directory and the error of `os.WriteFile`
unfoldable pub save_to : Write → Group → Manager → Manager × Option Error
unfolding write_file
save_to w g m =
    let (files, written) = write_file w (file_name g.name) (json g) m.directory in
    (record m { directory = files }, if written then none else some write_failed)

-- the manager with the group `g` put under a name, saved
abbrev pub put_group : Write → String → Group → Manager → Manager × Option Error
put_group w name g m = save_to w g (record m { groups = insert name g m.groups })

-- `AddLink`
unfoldable pub add_link : Write → String → Link → Manager → Manager × Option Error
unfolding save_to
add_link w name link m =
    let g : Group = elim (lookup name m.groups) [
      | none ↦ record { name = name; kind = "basic"; links = []; subscriptions = [] }
      | some g ↦ g
    ] in
    let added : List Link = regroup name link ∷ [] in
    put_group w name (record g { links = g.links ++ added }) m

-- the first link with the remark taken out; none if there is no such link
unfoldable pub cut_link : String → List Link → Option (List Link)
cut_link remark [] = none
cut_link remark (l ∷ ls) =
    let rest = cut_link remark ls in
    if l.remark == remark then some ls else elim rest [ none ↦ none | some left ↦ some (l ∷ left) ]

-- `RemoveLink`
unfoldable pub remove_link : Write → String → String → Manager → Manager × Option Error
unfolding cut_link save_to
remove_link w name remark m = elim (lookup name m.groups) [
  | none ↦ (m, some group_not_found)
  | some g ↦ elim (cut_link remark g.links) [
    | none ↦ (m, some link_not_found)
    | some left ↦ put_group w name (record g { links = left }) m
  ]
]

-- `ListGroups`
unfoldable pub list_groups : Dict Group → List String
list_groups order = map (λ e. e.0) order

-- `GetGroup`
unfoldable pub get_group : String → Manager → Option Group
get_group name m = lookup name m.groups

-- `CreateGroup`
unfoldable pub create_group : Write → String → String → Manager → Manager × Option Error
unfolding save_to
create_group w name kind m = elim (lookup name m.groups) [
  | some _ ↦ (m, some group_exists)
  | none ↦ put_group w name (record { name = name; kind = kind; links = []; subscriptions = [] }) m
]

-- `DeleteGroup`; `os.Remove` fails if there is no such file, and may fail otherwise
unfoldable pub delete_group : Bool → String → Manager → Manager × Option Error
delete_group removable name m = elim (lookup name m.groups) [
  | none ↦ (m, some group_not_found)
  | some _ ↦
      let left = record m { groups = delete name m.groups } in
      elim (lookup (file_name name) m.directory) [
        | none ↦ (left, some remove_failed)
        | some _ ↦
            if removable
            then (record left { directory = delete (file_name name) m.directory }, none)
            else (left, some remove_failed)
      ]
]

-- `SaveGroup`
unfoldable pub save_group : Write → String → Manager → Manager × Option Error
unfolding save_to
save_group w name m = elim (lookup name m.groups) [
  | none ↦ (m, some group_not_found)
  | some g ↦ save_to w g m
]

abbrev active_name : String
active_name = ".active"

-- `SetActiveLink`; the error of the write is dropped
unfoldable pub set_active_link : Write → Link → Manager → Manager
unfolding write_file
set_active_link w link m =
    let (files, _) =
      write_file w active_name (text (link.group <> "\n" <> link.remark)) m.directory in
    record m { active_link = some link; directory = files }

-- the loop of `GetActiveLink`, which compares trimmed remarks
unfoldable pub find_trimmed : String → List Link → Option Link
find_trimmed remark [] = none
find_trimmed remark (l ∷ ls) =
    if trim_space l.remark == remark then some l else find_trimmed remark ls

-- the first two lines of a text, trimmed
abbrev pub first_two : List String → Option (String × String)
first_two (a ∷ b ∷ _) = some (trim_space a, trim_space b)
first_two _ = none

-- what a text in the file `.active` selects
unfoldable pub resolve_active : String → Manager → Option Link
unfolding find_trimmed split trim_space
resolve_active saved m = elim (first_two (split b'\n' saved)) [
  | none ↦ none
  | some (group, remark) ↦ elim (lookup group m.groups) [
    | none ↦ none
    | some g ↦ find_trimmed remark g.links
  ]
]

-- `GetActiveLink`
unfoldable pub get_active_link : Manager → Option Link
unfolding resolve_active
get_active_link m = elim m.active_link [
  | some l ↦ some l
  | none ↦ elim (lookup active_name m.directory) [
    | some (text saved) ↦ resolve_active saved m
    | _ ↦ none
  ]
]

-- a group as `loadAll` keeps it: the group's name and the CDN mark are written into each link
unfoldable pub loaded : Group → Group
loaded g = record g { links = map (λ l. mark_cdn_detected (regroup g.name l)) g.links }

unfoldable pub load_entry : String → Content → Dict Group → Dict Group
unfolding loaded
load_entry name c groups = elim (unmarshal c) [
  | none ↦ groups
  | some g ↦ if is_json_name name then insert g.name (loaded g) groups else groups
]

-- the loop of `loadAll` over the entries of `os.ReadDir`
unfoldable pub load_entries : Dict Content → Dict Group → Dict Group
unfolding load_entry
load_entries [] groups = groups
load_entries ((name, c) ∷ entries) groups = load_entries entries (load_entry name c groups)

-- `NewManager` with `loadAll`, where the directory can be made and read
unfoldable pub new_manager : Dict Content → String → Manager
unfolding load_entries
new_manager entries active_group = record {
  directory = entries;
  groups = load_entries entries [];
  active_group = active_group;
  active_link = none;
}
