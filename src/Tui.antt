-- ===== src/Tui.antt =====
-- The state of internal/tui/tui.go, with the messages that change it. How it is shown (`View`) is not
-- modelled, nor are the fields that only `View` reads: termHeight and benchMode.
pub mod Files
pub mod Home
pub mod Servers
pub mod Subs
pub mod Dialogs
pub mod Update
use bypath.Base.{
  ℤ, ℕ, ◌+◌, ◌-◌, String, string_eq, Bool, true, false, ◌||◌, ◌==◌, ltb, if◌then◌else◌, List, [],
  ◌∷◌, Option, some,
}

pub data Tab : Type 0 where
  home servers subs : Tab

-- what the bench found of a link: of `benchEntry` in bench.go what is not only shown
pub record BenchEntry : Type 0 where
  pub idx : ℕ
  pub ping : ℤ
  pub relay : ℤ

-- `model`. Of `cancelFn` only whether it is set.
pub record Model : Type 0 where
  pub tab : Tab
  pub cursor : ℕ
  pub groups : List String
  pub active_group : ℕ
  pub output : String
  pub show_output : Bool
  pub output_scroll : ℕ
  pub running : Bool
  pub input_mode : Bool
  pub input_buf : String
  pub input_label : String
  pub input_action : String
  pub update_info : String
  pub active_info : String
  pub status_info : String
  pub confirm_mode : Bool
  pub confirm_label : String
  pub confirm_yes : Bool
  pub confirm_action : String
  pub confirm_yes_label : String
  pub confirm_no_label : String
  pub bench_running : Bool
  pub bench_done : Bool
  pub bench_results : List BenchEntry
  pub bench_sort_asc : Bool
  pub cancellable : Bool

-- The `Type` of a key message, as far as it is looked at.
pub data KeyType : Type 0 where
  key_enter key_esc key_backspace key_delete key_ctrl_u key_runes other_key : KeyType

-- A key as the library of the terminal delivers it: its type, its text (`String()`) and its runes.
pub record Key : Type 0 where
  pub key_type : KeyType
  pub text : String
  pub runes : String

-- The messages. The error of an action is its text, if there is one.
pub data Msg : Type 0 where
  update_check_msg active_info_msg status_msg : String → Msg
  window_size_msg : ℕ → Msg
  bench_done_msg : List BenchEntry → Msg
  action_done_msg : String → Option String → String → Msg
  key_msg : Key → Msg

-- How an update is asked for: `update --direct`, `update`, and `update --proxy` behind the own proxy.
pub data UpdateWay : Type 0 where
  direct plain : UpdateWay
  over_bypath : String → UpdateWay

-- What the library is asked to run behind a step: of a closure what it is given. `cancel` is the call
-- of `cancelFn`, in the step.
pub data Job : Type 0 where
  idle quit reload live_status cancel : Job
  execute_action : String → Job
  execute_input : String → String → Job
  select_link : ℕ → String → Job
  ping_all : List BenchEntry → Job
  full_bench : List BenchEntry → String → Job
  test_single : String → ℕ → Job
  remove_server : ℤ → String → Job
  update_sub : String → Job
  update_sub_over : String → String → Job
  update_subs_over : String → Job
  self_update : UpdateWay → Job

-- What a step does to the files itself.
pub data Written : Type 0 where
  nothing : Written
  group_removed : String → Written
  sub_removed : String → ℤ → Written

-- A step that does not panic.
pub record Stepped : Type 0 where
  pub model : Model
  pub job : Job
  pub written : Written

-- whether a text is one of a case's
unfoldable pub is_any_of : String → List String → Bool
is_any_of text [] = false
is_any_of text (t ∷ ts) = text == t || is_any_of text ts

-- a `switch` on a text: the first case that has it, or the default
unfoldable pub case_of :
    String → List (List String × Option Stepped) → Option Stepped → Option Stepped
unfolding is_any_of
case_of text [] default = default
case_of text ((ts, step) ∷ cases) default =
    let later = case_of text cases default in if is_any_of text ts then step else later

-- `return m, nil`, and a step that asks for a job
abbrev pub stays : Model → Option Stepped
stays m = some (record { model = m; job = Job.idle; written = Written.nothing })

abbrev pub asks : Model → Job → Option Stepped
asks m job = some (record { model = m; job = job; written = Written.nothing })

-- the dialog for a text, and the one to confirm an action
abbrev pub open_input : String → String → String → Model → Model
open_input label buf action m = record m {
  input_mode = true;
  input_label = label;
  input_buf = buf;
  input_action = action;
}

abbrev pub open_confirm : String → Bool → String → Model → Model
open_confirm label yes_first action m = record m {
  confirm_mode = true;
  confirm_label = label;
  confirm_yes = yes_first;
  confirm_action = action;
}

abbrev pub show_text : String → Model → Model
show_text text m = record m { show_output = true; output = text }

-- the cursor one up, and one down a list of so many entries
abbrev pub cursor_up : Model → Model
cursor_up m = record m { cursor = m.cursor - 1 }

abbrev pub cursor_down : ℕ → Model → Model
cursor_down n m = if ltb (m.cursor + 1) n then record m { cursor = m.cursor + 1 } else m
