-- ===== src/Tui/Update/Removes.antt =====
-- What the keys for the removal of a link ask for.
use bypath.Base.{
  suc, ◌+◌, ◌||◌, Bool, pos, ℕ, String, string_eq, false, ◌==◌, List, [], ◌∷◌, Option, none, some,
  ◌≡◌, get_elem?, ◌<>◌, format_nat,
}
use bypath.Tui.{Model, Key, Stepped, open_confirm, key_msg}
use bypath.Base.Int.{ltb_ℤ}
use bypath.Tui.Files.{Surroundings, StoredLink, LinkEntry, short_server}
use bypath.Tui.Servers.{link_name}
use bypath.Tui.Update.{update}

-- the last step of some keys, if none of them panics
abbrev pub presses : Surroundings → Key → List Key → Model → Option Stepped
presses env key [] m = update env (key_msg key) m
presses env key (next ∷ keys) m = elim (update env (key_msg key) m) [
  | none ↦ none
  | some s ↦ presses env next keys s.model
]

-- Link `i` of the file of a group is the one that an entry of the list shows.
pub record IsStored (env : Surroundings) (g : String) (l : LinkEntry) (i : ℕ) : Type 0 where
  stored : List StoredLink
  link : StoredLink
  file : env.links_of g ≡ some stored
  place : get_elem? stored i ≡ some link
  remark : l.remark ≡ link.remark
  server : l.server ≡ short_server link.address
  pub number : l.idx ≡ suc i

-- Entry `l` shows a link of a list whose numbers begin behind `k`.
abbrev Placed : ℕ → List StoredLink → LinkEntry → Type 0
Placed k ls l =
    (i : ℕ) × (link : StoredLink) × (get_elem? ls i ≡ some link)
    × (l.remark ≡ link.remark)
    × (l.server ≡ short_server link.address)
    × (l.idx ≡ k + suc i)

is_left_out : StoredLink → Bool
is_left_out x = ltb_ℤ x.port (pos 10) || x.address == "" || x.address == "0.0.0.0"

-- the dialog for the link under the cursor
asked_for : String → LinkEntry → Model → Model
asked_for g l m =
    open_confirm ("Delete server '" <> link_name l <> "'?") false
      ("delete-server|" <> g <> "|" <> format_nat l.idx) m
