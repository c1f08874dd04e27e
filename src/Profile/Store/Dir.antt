-- ===== src/Profile/Store/Dir.antt =====
-- The profiles directory as internal/profile/profile.go uses it: the entries by name, with what
-- `encoding/json` keeps of a group. `json.Unmarshal` of what `json.MarshalIndent` wrote is the group
-- with the fields that are tagged `json:"-"` at their zero values.
use bypath.Base.{
  pos, String, string_eq, Bool, true, false, map, Option, none, some, ◌==◌, Dict, insert, ◌<>◌,
  cut_last,
}
use bypath.Profile.{Link, Group}

-- the fields of a link that are written
unfoldable pub persisted_link : Link → Link
persisted_link l = record l { cdn_detected = false; chain_proxy = ""; listen_port = pos 0 }

unfoldable pub persisted : Group → Group
unfolding persisted_link
persisted g = record g { links = map persisted_link g.links }

-- A file holds the JSON of a group, or some other text, or cannot be read.
pub data Content : Type 0 where
  json : Group → Content
  text : String → Content
  unreadable : Content

-- what `json.Unmarshal` into a `Group` gives
unfoldable pub unmarshal : Content → Option Group
unfolding persisted
unmarshal (json g) = some (persisted g)
unmarshal (text _) = none
unmarshal unreadable = none

-- What an `os.WriteFile` may do: write all, fail before it opens the file, or fail with a part
-- written.
pub data Write : Type 0 where
  written refused : Write
  torn : String → Write

unfoldable pub write_file : Write → String → Content → Dict Content → Dict Content × Bool
write_file written name c files = (insert name c files, true)
write_file refused name c files = (files, false)
write_file (torn part) name c files = (insert name (text part) files, false)

-- `g.Name + ".json"`. `filepath.Join` cleans the path of a name with a slash, such as "./b" or "../b",
-- to another file: here each name is a file of its own, as it is for names without a slash.
abbrev pub file_name : String → String
file_name name = name <> ".json"

-- `filepath.Ext(name) == ".json"`: what stands from the last dot on
unfoldable pub is_json_name : String → Bool
is_json_name name = elim (cut_last b'.' name) [ none ↦ false | some (_, ext) ↦ ext == "json" ]
