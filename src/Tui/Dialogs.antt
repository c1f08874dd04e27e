-- ===== src/Tui/Dialogs.antt =====
-- internal/tui/tui.go: the dialogs (`handleConfirm`, `handleInput`), and `removeSubscription`. Of a
-- shell command of an update only the way of the update is modelled.
use Prim.Native.Char.{code}
use Prim.Native.String.{[], ◌∷◌}
use bypath.Base.{
  ℤ, pos, negsuc, String, string_eq, true, false, not, ◌==◌, if◌then◌else◌, ltb, leb, List, [], ◌∷◌,
  Option, none, some, length, trim_space, cut_prefix, cut_first, atoi, ◌<>◌, Result, ok, err,
}
use bypath.Tui.{
  Model, Key, KeyType, key_enter, key_esc, key_backspace, key_delete, key_ctrl_u, key_runes,
  other_key, direct, plain, over_bypath, Job, Written, Stepped, case_of, stays, asks, open_confirm,
  show_text, cursor_up,
}
use bypath.Tui.Files.{Surroundings, find_groups, without_file, socks_addr}

-- `removeSubscription` of a file that is decoded: none if it panics, for an index below 0. What its
-- errors say is not modelled: a short text stands for it.
unfoldable pub remove_at : Surroundings → String → List String → ℤ → Option (Result String Written)
remove_at env group urls (negsuc i) = none
remove_at env group urls (pos i) =
    if leb (length urls) i then some (err "invalid index") else elim (env.write_error group) [
      | some e ↦ some (err e)
      | none ↦ some (ok (Written.sub_removed group (pos i)))
    ]

-- `removeSubscription`
unfoldable pub remove_sub : Surroundings → String → ℤ → Option (Result String Written)
unfolding remove_at
remove_sub env group idx = elim (env.subs_of group) [
  | none ↦ some (err "unreadable")
  | some urls ↦ remove_at env group urls idx
]

-- a step that closes the dialog
abbrev pub close_confirm : Model → Model
close_confirm m = record m { confirm_mode = false; confirm_yes_label = ""; confirm_no_label = "" }

-- the question for the way of an update
abbrev pub ask_method : Model → Model
ask_method m = record (open_confirm "Download method?" false "do-update-method" m) {
  confirm_yes_label = "Direct";
  confirm_no_label = "Over Bypath";
}

-- the case `delete-group-`
unfoldable pub confirm_group : Surroundings → String → Model → Option Stepped
unfolding find_groups without_file
confirm_group env name m =
    let left = find_groups (without_file (name <> ".json") env) in
    let index = if ltb m.active_group (length left) then m.active_group else 0 in
    let removed : Written = if env.removes then Written.group_removed name else Written.nothing in
    some (record {
      model =
          show_text ("✅ Group '" <> name <> "' deleted")
            (record m { groups = left; active_group = index; cursor = 0 });
      job = Job.idle;
      written = removed;
    })

-- the case `delete-server|`
unfoldable pub confirm_server : String → Model → Option Stepped
confirm_server rest m = elim (cut_first b'|' rest) [
  | none ↦ stays m
  | some (group, idx) ↦ asks (record m { running = true }) (Job.remove_server (atoi idx) group)
]

-- how a removal of a subscription is shown
unfoldable pub show_removal : String → Model → Result String Written → Option Stepped
show_removal group m (err e) = stays (show_text ("❌ " <> e) m)
show_removal group m (ok change) = some (record {
  model = cursor_up (show_text ("✅ Removed from '" <> group <> "'") m);
  job = Job.idle;
  written = change;
})

-- the case `delete-sub|`
unfoldable pub confirm_sub : Surroundings → String → Model → Option Stepped
unfolding remove_sub show_removal
confirm_sub env rest m = elim (cut_first b'|' rest) [
  | none ↦ stays m
  | some (group, idx) ↦ elim (remove_sub env group (atoi idx)) [
    | none ↦ none
    | some result ↦ show_removal group m result
  ]
]

-- the `switch` over the action behind `Yes`
unfoldable pub confirmed : Surroundings → Model → Option Stepped
unfolding confirm_group confirm_server confirm_sub
confirmed env m =
    if m.confirm_action == "do-update-ask-method"
    then stays (ask_method m)
    else if m.confirm_action == "do-update-method"
    then asks m (Job.self_update direct)
    else if m.confirm_action == "do-update"
    then asks m (Job.self_update plain)
    else elim (cut_prefix "delete-group-" m.confirm_action) [
      | some name ↦ confirm_group env name m
      | none ↦ elim (cut_prefix "delete-server|" m.confirm_action) [
        | some rest ↦ confirm_server rest m
        | none ↦ elim (cut_prefix "delete-sub|" m.confirm_action) [
          | some rest ↦ confirm_sub env rest m
          | none ↦
              if m.confirm_action == "restart-gateway"
              then asks (record m { running = true }) (Job.execute_action "restart")
              else if m.confirm_action == "stop-gateway"
              then asks (record m { running = true }) (Job.execute_action "stop")
              else stays m
        ]
      ]
    ]

-- `No`
unfoldable pub declined : Surroundings → Model → Option Stepped
unfolding socks_addr
declined env m =
    if m.confirm_action == "do-update-method"
    then asks m (Job.self_update (over_bypath (socks_addr env)))
    else stays m

-- `n`: in the question for the way of an update it only selects
unfoldable pub answer_no : Model → Model
answer_no m =
    if m.confirm_action == "do-update-method"
    then record m { confirm_yes = false }
    else close_confirm m

-- `handleConfirm`
unfoldable pub handle_confirm : Surroundings → Key → Model → Option Stepped
unfolding confirmed declined case_of answer_no
handle_confirm env key m =
    case_of key.text
      ((
        "left" ∷ "right" ∷ "h" ∷ "l" ∷ "tab" ∷ [],
        stays (record m { confirm_yes = not m.confirm_yes }),
      )
        ∷ (
          "enter" ∷ " " ∷ [],
          if m.confirm_yes then confirmed env (close_confirm m) else declined env (close_confirm m),
        )
        ∷ ("esc" ∷ "q" ∷ [], stays (close_confirm m))
        ∷ ("n" ∷ [], stays (answer_no m))
        ∷ ("y" ∷ [], stays (record m { confirm_yes = true }))
        ∷ [])
      (stays m)

-- the text without its last rune
unfoldable pub drop_last : String → String
drop_last [] = []
drop_last (c ∷ s) = let rest = drop_last s in if s == "" then "" else c ∷ rest

-- what a key that is no other one enters
unfoldable pub printable : String → String
printable [] = []
printable (c ∷ s) = if leb 32 (code c) then c ∷ s else []

-- `enter`: the text that was entered goes to the action
unfoldable pub enter_input : Model → Option Stepped
enter_input m =
    if trim_space m.input_buf == ""
    then stays (record m { input_mode = false })
    else asks (record m { input_mode = false; running = true })
        (Job.execute_input m.input_action (trim_space m.input_buf))

-- the `switch` of `handleInput`
unfoldable pub input_key : KeyType → Key → Model → Option Stepped
unfolding drop_last printable enter_input
input_key key_enter key m = enter_input m
input_key key_esc key m = stays (record m { input_mode = false; input_buf = "" })
input_key key_backspace key m = stays (record m { input_buf = drop_last m.input_buf })
input_key key_delete key m = stays (record m { input_buf = drop_last m.input_buf })
input_key key_ctrl_u key m = stays (record m { input_buf = "" })
input_key key_runes key m = stays (record m { input_buf = m.input_buf <> key.runes })
input_key other_key key m = stays (record m { input_buf = m.input_buf <> printable key.text })

-- `handleInput`
unfoldable pub handle_input : Key → Model → Option Stepped
unfolding input_key
handle_input key m = input_key key.key_type key m
