-- ===== src/Tui/Update/Keeps.antt =====
-- What each message may do to a sound menu: it keeps it sound, deletes only what an open dialog names,
-- and panics only in two ways.
use bypath.Base.{
  ◌<◌, ◌≤◌, String, string_eq, Bool, true, false, ◌==◌, if◌then◌else◌, List, [], ◌∷◌, Option, ◌≡◌,
  refl, ◌⊎◌, inl, inr, Bool-cases, length, trim_space,
}
use bypath.Tui.{
  Tab, KeyType, Model, Key, Msg, Stepped, Job, stays, asks, case_of, is_any_of, update_check_msg,
  active_info_msg, status_msg, window_size_msg, bench_done_msg, action_done_msg, key_msg, home,
  servers, subs, nothing, key_enter, key_esc, key_backspace, key_delete, key_ctrl_u, key_runes,
  other_key,
}
use bypath.Tui.Files.{Surroundings, find_groups}
use bypath.Tui.Home.{home_items}
use bypath.Tui.Dialogs.{
  close_confirm, answer_no, input_key, enter_input, confirmed, declined, handle_confirm,
  handle_input,
}
use bypath.Tui.Update.{
  name_of_active, action_done, output_key, running_key, tab_key, ready_key, mode_key, handle_key,
  update,
}
use bypath.Tui.Update.Branches.{
  Fine, steps, Fine-map, case_of-branch, case_of-default, case_of-case, if-branch, if-case,
}
use bypath.Tui.Update.Sound.{IsQuiet, Steps, IsSound, restored_group-IsIndex}
use bypath.Tui.Update.Tabs.{
  either, handle_home_key-Fine, handle_subs_key-Fine, handle_servers_key-Fine,
}
use bypath.Tui.Update.Named.{Names, Says, quiet, says, confirmed-Fine}

-- no dialog is open, no output is shown and no action runs
pub record IsReady (m : Model) : Type 0 where
  pub no_dialog : m.confirm_mode ≡ false
  pub no_input : m.input_mode ≡ false
  pub no_output : m.show_output ≡ false
  pub no_action : m.running ≡ false

-- The two ways to panic, both by `enter` or space: on the home tab where the cursor is below the menu,
-- and on the servers tab where results of a bench are shown but there is no group.
pub data Overruns (env : Surroundings) (m : Model) : Msg → Type 0 where
  below_menu :
      (key : Key)
      → IsReady m
      → m.tab ≡ home
      → (key.text ≡ "enter") ⊎ (key.text ≡ " ")
      → length (home_items env m) ≤ m.cursor
      → Overruns env m (key_msg key)
  without_groups :
      (key : Key)
      → IsReady m
      → m.tab ≡ servers
      → (key.text ≡ "enter") ⊎ (key.text ≡ " ")
      → m.groups ≡ []
      → m.bench_done ≡ true
      → m.cursor < length m.bench_results
      → Overruns env m (key_msg key)

-- `enter` or space while a dialog to confirm is open with Yes selected
pub record IsYes (m : Model) (key : Key) : Type 0 where
  pub open_dialog : m.confirm_mode ≡ true
  pub yes : m.confirm_yes ≡ true
  pub entered : (key.text ≡ "enter") ⊎ (key.text ≡ " ")

-- How a step may delete: not at all, or by Yes in a dialog that names what is deleted.
pub data Deletes (m : Model) : Msg → Stepped → Type 0 where
  none_deleted : {msg : Msg} {s : Stepped} → IsQuiet s.job s.written → Deletes m msg s
  named :
      {key : Key} {s : Stepped}
      → IsYes m key
      → Names m.confirm_action m.confirm_label s.job s.written
      → Deletes m (key_msg key) s

-- what holds of a step that does not panic
abbrev pub Keeps : Model → Msg → Stepped → Type 0
Keeps m msg s = IsSound s.model × Deletes m msg s

module _ (env : Surroundings) (key : Key) (m : Model) (h : IsSound m) where
  abbrev Over : Type 0
  Over = Overruns env m (key_msg key)

  abbrev Safely : Option Stepped → Type 0
  Safely = Fine Over (Keeps m (key_msg key))

  kept : (n : Model) (job : Job) → IsSound n → IsQuiet job nothing → Safely (asks n job)
  kept n job sound q = steps (sound, none_deleted q)

  closed : IsSound (close_confirm m)
  closed = (h.0, λ e. cc)

  answer_no-Fine : Safely (stays (answer_no m))
  unfolding answer_no
  answer_no-Fine = elim (Bool-cases (m.confirm_action == "do-update-method")) [
    | inl e ↦ rw e (steps (h, none_deleted tt))
    | inr e ↦ rw e (steps (closed, none_deleted tt))
  ]

  answered :
      m.confirm_mode ≡ true
      → m.confirm_yes ≡ true
      → is_any_of key.text ("enter" ∷ " " ∷ []) ≡ true
      → Safely (confirmed env (close_confirm m))
  answered open_now said e =
      Fine-map Over (Says m.confirm_action m.confirm_label) (Keeps m (key_msg key))
        (λ s told. elim told [
          | quiet sound q ↦ (sound, none_deleted q)
          | says sound n ↦ (
            sound,
            named (record { open_dialog = open_now; yes = said; entered = either _ _ _ e }) n,
          )
        ])
        (confirmed-Fine env (close_confirm m) closed m.confirm_label Over refl (h.1 open_now))

  unanswered : Safely (declined env (close_confirm m))
  unfolding declined
  unanswered =
      if-branch Safely (m.confirm_action == "do-update-method") _ _
        (steps (closed, none_deleted tt)) (steps (closed, none_deleted tt))

  handle_confirm-Fine : m.confirm_mode ≡ true → Safely (handle_confirm env key m)
  unfolding handle_confirm
  handle_confirm-Fine open_now =
      search
        (
          case_of-branch Safely,
          case_of-default Safely,
          entered,
          kept,
          tt,
          h,
          closed,
          answer_no-Fine,
        )
        depth 20
    where
      entered :
          (default : Option Stepped) (cases : List (List String × Option Stepped))
          → Safely (case_of key.text cases default)
          → Safely (
              case_of key.text
                ((
                  "enter" ∷ " " ∷ [],
                  if m.confirm_yes
                      then confirmed env (close_confirm m)
                      else declined env (close_confirm m),
                )
                  ∷ cases)
                default)
      entered default cases =
          case_of-case Safely key.text ("enter" ∷ " " ∷ []) _ default cases (λ e.
            if-case Safely m.confirm_yes _ _ (λ said. answered open_now said e) (λ _. unanswered))

  input_key-Fine : (t : KeyType) → Safely (input_key t key m)
  unfolding input_key enter_input
  input_key-Fine key_enter =
      if-branch Safely (trim_space m.input_buf == "") _ _ (steps (h, none_deleted tt))
        (steps (h, none_deleted tt))
  input_key-Fine key_esc = steps (h, none_deleted tt)
  input_key-Fine key_backspace = steps (h, none_deleted tt)
  input_key-Fine key_delete = steps (h, none_deleted tt)
  input_key-Fine key_ctrl_u = steps (h, none_deleted tt)
  input_key-Fine key_runes = steps (h, none_deleted tt)
  input_key-Fine other_key = steps (h, none_deleted tt)

  cancel-IsQuiet : (b : Bool) → IsQuiet (if b then Job.cancel else Job.idle) nothing
  cancel-IsQuiet true = tt
  cancel-IsQuiet false = tt

  shown_key-Fine : Safely (output_key key m) × Safely (running_key key m)
  unfolding output_key running_key
  shown_key-Fine = (
    search (case_of-branch Safely, case_of-default Safely, kept, tt, h) depth 10,
    search (case_of-branch Safely, case_of-default Safely, kept, tt, h, cancel-IsQuiet) depth 10,
  )

  tab_key-Fine : IsReady m → (t : Tab) → m.tab ≡ t → Fine Over Steps (tab_key t env key m)
  unfolding tab_key
  tab_key-Fine ready home at =
      handle_home_key-Fine env key m h Over (λ e low. below_menu key ready at e low)
  tab_key-Fine ready servers at =
      handle_servers_key-Fine env key m h Over
        (λ e empty benched low. without_groups key ready at e empty benched low)
  tab_key-Fine ready subs at = handle_subs_key-Fine env key m h Over

  ready_key-Fine : IsReady m → Safely (ready_key env key m)
  unfolding ready_key
  ready_key-Fine ready =
      let tabbed : Safely (tab_key m.tab env key m) =
        Fine-map Over Steps (Keeps m (key_msg key)) (λ s p. (p.0, none_deleted p.1))
          (tab_key-Fine ready m.tab refl) in
      search (case_of-branch Safely, case_of-default Safely, kept, tt, h, tabbed) depth 10

  handle_key-Fine : Safely (handle_key env key m)
  unfolding handle_key mode_key handle_input
  handle_key-Fine =
      let moded : Safely (mode_key env key m) =
        if-case Safely m.confirm_mode _ _ handle_confirm-Fine (λ a.
          if-case Safely m.input_mode _ _ (λ _. input_key-Fine key.key_type)
            (λ b.
              if-case Safely m.show_output _ _ (λ _. shown_key-Fine.0)
                (λ c.
                  if-case Safely m.running _ _ (λ _. shown_key-Fine.1)
                    (λ d.
                      ready_key-Fine (record {
                        no_dialog = a;
                        no_input = b;
                        no_output = c;
                        no_action = d;
                      }))))) in
      search (case_of-branch Safely, case_of-default Safely, kept, tt, h, moded) depth 10

pub update-Fine :
    (env : Surroundings) (msg : Msg) (m : Model)
    → IsSound m
    → Fine (Overruns env m msg) (Keeps m msg) (update env msg m)
unfolding update action_done
update-Fine env (update_check_msg info) m h = steps (h, none_deleted tt)
update-Fine env (active_info_msg info) m h = steps (h, none_deleted tt)
update-Fine env (status_msg info) m h = steps (h, none_deleted tt)
update-Fine env (window_size_msg height) m h = steps (h, none_deleted tt)
update-Fine env (bench_done_msg results) m h = steps (h, none_deleted tt)
update-Fine env (action_done_msg output error target) m h =
    steps
      ((restored_group-IsIndex (name_of_active m) target (find_groups env), h.1), none_deleted tt)
update-Fine env (key_msg key) m h = handle_key-Fine env key m h
