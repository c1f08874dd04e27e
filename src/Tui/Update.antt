-- ===== src/Tui/Update.antt =====
-- internal/tui/tui.go: `initialModel`, `Update` and `handleKey`. The colours of an error are not modelled.
mod Branches
mod Bars
mod Prefixes
mod Sound
mod Tabs
mod Named
mod Keeps
pub mod Reached
pub mod Panics
pub mod Removes
mod Tests
use bypath.Base.{
  ℕ, zero, suc, ◌+◌, ◌-◌, String, string_eq, Bool, true, false, not, ◌==◌, if◌then◌else◌, List, [],
  ◌∷◌, Option, none, some, get_elem?, ◌<>◌,
}
use bypath.Tui.{
  Tab, home, servers, subs, Model, Key, Msg, update_check_msg, active_info_msg, status_msg,
  window_size_msg, bench_done_msg, action_done_msg, key_msg, Job, Stepped, case_of, stays, asks,
}
use bypath.Tui.Files.{Surroundings, find_groups}
use bypath.Tui.Home.{handle_home_key}
use bypath.Tui.Servers.{index_of, handle_servers_key}
use bypath.Tui.Subs.{handle_subs_key}
use bypath.Tui.Dialogs.{handle_confirm, handle_input}

-- the index of the first group that is not the default one
unfoldable pub find_other : List String → Option ℕ
find_other [] = none
find_other (g ∷ gs) =
    let rest = find_other gs in
    if not (g == "default") then some 0 else elim rest [ none ↦ none | some i ↦ some (suc i) ]

-- that, or 0 if there is none
unfoldable pub first_other : List String → ℕ
unfolding find_other
first_other gs = elim (find_other gs) [ none ↦ 0 | some i ↦ i ]

-- `initialModel`
unfoldable pub initial_model : Surroundings → Model
unfolding find_groups first_other
initial_model env = record {
  tab = home;
  cursor = 0;
  groups = find_groups env;
  active_group = first_other (find_groups env);
  output = "";
  show_output = false;
  output_scroll = 0;
  running = false;
  input_mode = false;
  input_buf = "";
  input_label = "";
  input_action = "";
  update_info = "";
  active_info = "";
  status_info = "";
  confirm_mode = false;
  confirm_label = "";
  confirm_yes = false;
  confirm_action = "";
  confirm_yes_label = "";
  confirm_no_label = "";
  bench_running = false;
  bench_done = false;
  bench_results = [];
  bench_sort_asc = false;
  cancellable = false;
}

-- the name of the active group, or "" where its index is out of range
unfoldable pub name_of_active : Model → String
name_of_active m = elim (get_elem? m.groups m.active_group) [ none ↦ "" | some g ↦ g ]

-- The active group behind an action: the one of its name before, else the target of the action, else
-- the first that is not the default one.
unfoldable pub restored_group : String → String → List String → ℕ
unfolding index_of first_other
restored_group before target gs = elim (index_of before gs) [
  | some i ↦ i
  | none ↦
      if target == ""
      then first_other gs
      else elim (index_of target gs) [ some i ↦ i | none ↦ first_other gs ]
]

-- the case `actionDoneMsg`
unfoldable pub action_done : Surroundings → String → Option String → String → Model → Model
unfolding find_groups name_of_active restored_group
action_done env output error target m = record m {
  running = false;
  cancellable = false;
  show_output = true;
  output_scroll = 0;
  output = elim error [ none ↦ output | some e ↦ output <> "\nError: " <> e ];
  groups = find_groups env;
  active_group = restored_group (name_of_active m) target (find_groups env);
}

-- a key while an output is shown
unfoldable pub output_key : Key → Model → Option Stepped
unfolding case_of
output_key key m =
    case_of key.text
      (("up" ∷ "k" ∷ [], stays (record m { output_scroll = m.output_scroll - 1 }))
        ∷ ("down" ∷ "j" ∷ [], stays (record m { output_scroll = m.output_scroll + 1 }))
        ∷ [])
      (stays (record m { show_output = false; output = ""; output_scroll = 0 }))

-- a key while an action runs
unfoldable pub running_key : Key → Model → Option Stepped
unfolding case_of
running_key key m =
    let job = if m.cancellable then Job.cancel else Job.idle in
    case_of key.text
      (("esc" ∷ "q" ∷ [], asks (record m { cancellable = false; running = false }) job) ∷ [])
      (stays m)

unfoldable pub next_tab : Tab → Tab
next_tab home = servers
next_tab servers = subs
next_tab subs = home

unfoldable pub previous_tab : Tab → Tab
previous_tab home = subs
previous_tab servers = home
previous_tab subs = servers

-- the keys of the tabs
unfoldable pub tab_key : Tab → Surroundings → Key → Model → Option Stepped
unfolding handle_home_key handle_servers_key handle_subs_key
tab_key home env key m = handle_home_key env key m
tab_key servers env key m = handle_servers_key env key m
tab_key subs env key m = handle_subs_key env key m

-- `handleKey`, behind the dialogs, the output and the running action
unfoldable pub ready_key : Surroundings → Key → Model → Option Stepped
unfolding case_of next_tab previous_tab tab_key
ready_key env key m =
    case_of key.text
      (("q" ∷ [], asks m Job.quit)
        ∷ ("tab" ∷ "l" ∷ "right" ∷ [], stays (record m { tab = next_tab m.tab; cursor = 0 }))
        ∷ (
          "shift+tab" ∷ "h" ∷ "left" ∷ [],
          stays (record m { tab = previous_tab m.tab; cursor = 0 }),
        )
        ∷ [])
      (tab_key m.tab env key m)

-- `handleKey` behind `ctrl+c`
unfoldable pub mode_key : Surroundings → Key → Model → Option Stepped
unfolding handle_confirm handle_input output_key running_key ready_key
mode_key env key m =
    if m.confirm_mode
    then handle_confirm env key m
    else if m.input_mode
    then handle_input key m
    else if m.show_output
    then output_key key m
    else if m.running
    then running_key key m
    else ready_key env key m

-- `handleKey`
unfoldable pub handle_key : Surroundings → Key → Model → Option Stepped
unfolding case_of mode_key
handle_key env key m = case_of key.text (("ctrl+c" ∷ [], asks m Job.quit) ∷ []) (mode_key env key m)

-- `Update`
unfoldable pub update : Surroundings → Msg → Model → Option Stepped
unfolding action_done handle_key
update env (update_check_msg info) m = stays (record m { update_info = info })
update env (active_info_msg info) m = stays (record m { active_info = info })
update env (status_msg info) m = stays (record m { status_info = info })
update env (window_size_msg height) m = stays m
update env (bench_done_msg results) m =
    stays (record m { bench_running = false; bench_done = true; bench_results = results })
update env (action_done_msg output error target) m =
    asks (action_done env output error target m) Job.reload
update env (key_msg key) m = handle_key env key m
