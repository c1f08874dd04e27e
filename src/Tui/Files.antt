-- ===== src/Tui/Files.antt =====
-- internal/tui/tui.go: what the menu reads of the configuration and of the profiles directory
-- (`findGroups`, `loadGroupLinks`, `loadSubscriptions`, `socksPort`), and `loadBenchEntries` of bench.go.
-- The flag of a remark and the other fields that are only shown are not modelled.

use Prim.Native.String.{[], ◌∷◌}
use bypath.Base.{
  ℤ, pos, negsuc, ℕ, zero, suc, ◌+◌, String, string_eq, Bool, not, ◌&&◌, ◌||◌, ◌==◌, if◌then◌else◌,
  ltb, List, [], ◌∷◌, ◌++◌, Option, none, some, has_suffix, cut_last, select, format_int, ◌<>◌,
}
use bypath.Base.Int.{ltb_ℤ}
use bypath.Tui.{BenchEntry}

pub record DirEntry : Type 0 where
  pub name : String
  pub is_dir : Bool

-- the fields of a link in the file of a group that are decoded
pub record StoredLink : Type 0 where
  pub remark : String
  pub protocol : String
  pub address : String
  pub port : ℤ

-- What the system answers while a message is handled: the profiles directory, if it can be read; the
-- links and the subscriptions in the file of a group, if it can be read and decoded; whether a file can
-- be removed, and how the file of a group without one of its subscriptions is written; the port and the
-- preferred engine of the configuration, if it can be loaded; and whether the service is enabled.
pub record Surroundings : Type 0 where
  pub dir : Option (List DirEntry)
  pub links_of : String → Option (List StoredLink)
  pub subs_of : String → Option (List String)
  pub removes : Bool
  pub write_error : String → Option String
  pub loaded : Option (ℤ × String)
  pub enabled : Bool

-- `socksPort`
unfoldable pub socks_port : Surroundings → ℤ
socks_port env = elim env.loaded [
  | some (port, engine) ↦ if ltb_ℤ (pos 0) port then port else pos 2801
  | none ↦ pos 2801
]

-- `socksAddr`
unfoldable pub socks_addr : Surroundings → String
unfolding socks_port
socks_addr env = "socks5h://127.0.0.1:" <> format_int (socks_port env)

-- `strings.TrimSuffix(name, ".json")` of a name that ends in it
unfoldable pub without_json : String → String
unfolding cut_last
without_json name = elim (cut_last b'.' name) [ some (stem, ext) ↦ stem | none ↦ name ]

unfoldable pub groups_in : List DirEntry → List String
unfolding has_suffix without_json
groups_in [] = []
groups_in (e ∷ es) =
    let rest = groups_in es in
    if not e.is_dir && has_suffix e.name ".json" then without_json e.name ∷ rest else rest

-- `findGroups`
unfoldable pub find_groups : Surroundings → List String
unfolding groups_in
find_groups env = elim env.dir [ some es ↦ groups_in es | none ↦ [] ]

-- the directory behind `os.Remove`
unfoldable pub without_file : String → Surroundings → Surroundings
unfolding select
without_file name env =
    if env.removes
    then record env {
      dir = elim env.dir [
        | some es ↦ some (select (λ (e : DirEntry). not (e.name == name)) es)
        | none ↦ none
      ];
    }
    else env

pub record LinkEntry : Type 0 where
  pub idx : ℕ
  pub server : String
  pub remark : String

-- `server[:15] + "..."` of an address of more than 18 characters (of ASCII)
unfoldable pub text_length : String → ℕ
text_length [] = 0
text_length (c ∷ s) = suc (text_length s)

unfoldable pub text_take : ℕ → String → String
text_take zero s = []
text_take (suc n) [] = []
text_take (suc n) (c ∷ s) = c ∷ text_take n s

unfoldable pub short_server : String → String
unfolding text_length text_take
short_server address =
    if ltb 18 (text_length address) then text_take 15 address <> "..." else address

-- the loop of `loadGroupLinks`, from link `i` on
unfoldable pub link_entries : ℕ → List StoredLink → List LinkEntry
unfolding short_server
link_entries i [] = []
link_entries i (l ∷ ls) =
    let rest = link_entries (suc i) ls in
    if ltb_ℤ l.port (pos 10) || l.address == "" || l.address == "0.0.0.0"
    then rest
    else record { idx = i + 1; server = short_server l.address; remark = l.remark } ∷ rest

-- `loadGroupLinks`
unfoldable pub load_group_links : Surroundings → String → List LinkEntry
unfolding link_entries
load_group_links env group = elim (env.links_of group) [ some ls ↦ link_entries 0 ls | none ↦ [] ]

-- the loop of `loadBenchEntries`, from link `i` on
unfoldable pub bench_entries : ℕ → List StoredLink → List BenchEntry
bench_entries i [] = []
bench_entries i (l ∷ ls) =
    let rest = bench_entries (suc i) ls in
    if ltb_ℤ l.port (pos 10) || l.address == ""
    then rest
    else record { idx = i + 1; ping = negsuc 0; relay = negsuc 0 } ∷ rest

-- `loadBenchEntries`
unfoldable pub load_bench_entries : Surroundings → String → List BenchEntry
unfolding bench_entries
load_bench_entries env group = elim (env.links_of group) [
  | some ls ↦ bench_entries 0 ls
  | none ↦ []
]

pub record SubEntry : Type 0 where
  pub group : String
  pub idx : ℕ

unfoldable pub numbered : String → ℕ → List String → List SubEntry
numbered group i [] = []
numbered group i (url ∷ urls) = record { group = group; idx = i } ∷ numbered group (suc i) urls

unfoldable pub subs_of_groups : Surroundings → List String → List SubEntry
unfolding numbered
subs_of_groups env [] = []
subs_of_groups env (g ∷ gs) =
    let rest = subs_of_groups env gs in
    elim (env.subs_of g) [ some urls ↦ numbered g 0 urls ++ rest | none ↦ rest ]

-- `loadSubscriptions`
unfoldable pub load_subscriptions : Surroundings → List SubEntry
unfolding subs_of_groups find_groups
load_subscriptions env = subs_of_groups env (find_groups env)
