-- ===== src/Tui/Servers.antt =====
-- internal/tui/tui.go: the tab of the servers (`currentLinks`, `getSortedBenchResults`,
-- `handleServersKey`). A closure that is returned is the job with what it is given.
mod Sorted
pub mod Order
unfoldable pub use Sorted.{sorted_results}
use bypath.Base.{
  ℕ, zero, suc, ◌-◌, String, string_eq, nat_eq, Bool, true, false, not, ◌&&◌, ◌==◌, if◌then◌else◌,
  ltb, List, [], ◌∷◌, Option, none, some, length, get_elem?, format_nat, ◌<>◌,
}
use bypath.Tui.{
  BenchEntry, Model, Key, Job, Stepped, case_of, stays, asks, open_input, open_confirm, show_text,
  cursor_up, cursor_down,
}
use bypath.Tui.Files.{Surroundings, LinkEntry, load_group_links, load_bench_entries}

-- the index of the first group of the name
unfoldable pub index_of : String → List String → Option ℕ
index_of name [] = none
index_of name (g ∷ gs) =
    let rest = index_of name gs in
    if g == name then some 0 else elim rest [ none ↦ none | some i ↦ some (suc i) ]

-- the index of the group of a number, where the default group is not counted
unfoldable pub index_of_number : ℕ → List String → Option ℕ
index_of_number n [] = none
index_of_number n (g ∷ gs) =
    let same = index_of_number n gs in
    let fewer = index_of_number (n - 1) gs in
    let later = if g == "default" then same else fewer in
    if not (g == "default") && n == 1
    then some 0
    else elim later [ none ↦ none | some i ↦ some (suc i) ]

unfoldable pub switch_group : Option ℕ → Model → Model
switch_group none m = m
switch_group (some i) m = record m {
  active_group = i;
  cursor = 0;
  bench_done = false;
  bench_results = [];
}

-- the links of the group of an index: none where it is out of range
unfoldable pub links_at : Surroundings → List String → ℕ → Option (List LinkEntry)
unfolding load_group_links
links_at env [] i = some []
links_at env (g ∷ gs) i = elim (get_elem? (g ∷ gs) i) [
  | none ↦ none
  | some group ↦ some (load_group_links env group)
]

-- `currentLinks`
unfoldable pub current_links : Surroundings → Model → Option (List LinkEntry)
unfolding links_at
current_links env m = links_at env m.groups m.active_group

-- a step that needs the name `m.groups[m.activeGroup]`
unfoldable pub with_group : Model → (String → Option Stepped) → Option Stepped
with_group m f = elim (get_elem? m.groups m.active_group) [ none ↦ none | some g ↦ f g ]

-- `enter` in the results of the bench, and in the links
unfoldable pub select_result : Model → Option Stepped
unfolding with_group sorted_results
select_result m = elim (get_elem? (sorted_results m) m.cursor) [
  | none ↦ stays m
  | some e ↦ with_group m λ g. asks (record m { running = true }) (Job.select_link e.idx g)
]

unfoldable pub select_current : List LinkEntry → Model → Option Stepped
unfolding with_group
select_current links m = elim (get_elem? links m.cursor) [
  | none ↦ stays m
  | some l ↦ with_group m λ g. asks (record m { running = true }) (Job.select_link l.idx g)
]

-- `enter`: the results of a bench go before the links
unfoldable pub select_under_cursor : List LinkEntry → Model → Option Stepped
unfolding select_result select_current
select_under_cursor links m =
    if m.bench_done && ltb m.cursor (length m.bench_results)
    then select_result m
    else select_current links m

-- `f`: the order of the results
unfoldable pub flip_sort : Model → Model
flip_sort m =
    if m.bench_done && ltb 0 (length m.bench_results)
    then record m { bench_sort_asc = not m.bench_sort_asc; cursor = 0 }
    else m

-- the start of a bench, of all links
abbrev pub bench_started : Model → Model
bench_started m = record m { bench_running = true; bench_done = false; bench_results = [] }

unfoldable pub start_ping : Surroundings → Model → Option Stepped
unfolding with_group load_bench_entries
start_ping env m =
    with_group m λ g. asks (bench_started m) (Job.ping_all (load_bench_entries env g))

unfoldable pub start_bench : Surroundings → Model → Option Stepped
unfolding with_group load_bench_entries
start_bench env m = with_group m λ g.
    asks (record (bench_started m) { bench_sort_asc = true })
      (Job.full_bench (load_bench_entries env g) g)

unfoldable pub test_current : List LinkEntry → Model → Option Stepped
unfolding with_group
test_current links m = elim (get_elem? links m.cursor) [
  | none ↦ stays m
  | some l ↦ with_group m λ g. asks (record m { running = true }) (Job.test_single g l.idx)
]

-- `x`: ask to delete the group, where it is not the default one
unfoldable pub ask_delete_group : Model → Option Stepped
ask_delete_group m = elim (get_elem? m.groups m.active_group) [
  | none ↦ stays m
  | some g ↦
      if g == "default"
      then stays (show_text "❌ Cannot delete 'default' group" m)
      else stays (
          open_confirm ("Delete group '" <> g <> "' and all its links?") false
            ("delete-group-" <> g) m)
]

unfoldable pub link_name : LinkEntry → String
link_name l = if l.remark == "" then l.server else l.remark

unfoldable pub ask_delete_server : List LinkEntry → Model → Option Stepped
unfolding with_group link_name
ask_delete_server links m = elim (get_elem? links m.cursor) [
  | none ↦ stays m
  | some l ↦ with_group m λ g. stays (
      open_confirm ("Delete server '" <> link_name l <> "'?") false
        ("delete-server|" <> g <> "|" <> format_nat l.idx) m)
]

-- the `switch` of `handleServersKey`
unfoldable pub servers_key : Surroundings → Key → List LinkEntry → Model → Option Stepped
unfolding case_of index_of index_of_number switch_group start_ping start_bench test_current
    ask_delete_group ask_delete_server flip_sort select_under_cursor
servers_key env key links m =
    case_of key.text
      (("up" ∷ "k" ∷ [], stays (cursor_up m))
        ∷ ("down" ∷ "j" ∷ [], stays (cursor_down (length links) m))
        ∷ ("0" ∷ [], stays (switch_group (index_of "default" m.groups) m))
        ∷ ("1" ∷ [], stays (switch_group (index_of_number 1 m.groups) m))
        ∷ ("2" ∷ [], stays (switch_group (index_of_number 2 m.groups) m))
        ∷ ("3" ∷ [], stays (switch_group (index_of_number 3 m.groups) m))
        ∷ ("4" ∷ [], stays (switch_group (index_of_number 4 m.groups) m))
        ∷ ("5" ∷ [], stays (switch_group (index_of_number 5 m.groups) m))
        ∷ ("6" ∷ [], stays (switch_group (index_of_number 6 m.groups) m))
        ∷ ("7" ∷ [], stays (switch_group (index_of_number 7 m.groups) m))
        ∷ ("8" ∷ [], stays (switch_group (index_of_number 8 m.groups) m))
        ∷ ("9" ∷ [], stays (switch_group (index_of_number 9 m.groups) m))
        ∷ ("enter" ∷ " " ∷ [], select_under_cursor links m)
        ∷ ("p" ∷ [], if ltb 0 (length links) then start_ping env m else stays m)
        ∷ ("s" ∷ "b" ∷ [], if ltb 0 (length links) then start_bench env m else stays m)
        ∷ ("f" ∷ [], stays (flip_sort m))
        ∷ ("t" ∷ [], test_current links m)
        ∷ ("n" ∷ [], stays (open_input "New group name" "" "create-group" m))
        ∷ ("x" ∷ [], ask_delete_group m)
        ∷ ("d" ∷ "delete" ∷ [], ask_delete_server links m)
        ∷ [])
      (stays m)

-- `handleServersKey`
unfoldable pub handle_servers_key : Surroundings → Key → Model → Option Stepped
unfolding current_links servers_key
handle_servers_key env key m = elim (current_links env m) [
  | none ↦ none
  | some links ↦ servers_key env key links m
]
