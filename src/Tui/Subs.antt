-- ===== src/Tui/Subs.antt =====
-- internal/tui/tui.go: the tab of the subscriptions (`handleSubsKey`).
use bypath.Base.{
  true, false, List, [], ◌∷◌, Option, none, some, length, get_elem?, format_nat, ◌<>◌,
}
use bypath.Tui.{
  Model, Key, Job, Stepped, case_of, stays, asks, open_input, open_confirm, cursor_up, cursor_down,
}
use bypath.Tui.Files.{Surroundings, SubEntry, load_subscriptions, socks_addr}

-- `len(subs) > 0 && m.cursor < len(subs)`, and what follows for the entry under the cursor
unfoldable pub with_sub : List SubEntry → (SubEntry → Option Stepped) → Model → Option Stepped
with_sub subs f m = elim (get_elem? subs m.cursor) [ none ↦ stays m | some sub ↦ f sub ]

abbrev pub ask_delete_sub : Model → SubEntry → Option Stepped
ask_delete_sub m sub = stays (
    open_confirm ("Delete subscription from '" <> sub.group <> "'?") false
      ("delete-sub|" <> sub.group <> "|" <> format_nat sub.idx) m)

abbrev ask_rename_group : Model → SubEntry → Option Stepped
ask_rename_group m sub = stays (
    open_input ("Rename group '" <> sub.group <> "' to") sub.group ("rename-group-" <> sub.group) m)

-- `handleSubsKey`
unfoldable pub handle_subs_key : Surroundings → Key → Model → Option Stepped
unfolding load_subscriptions socks_addr case_of with_sub
handle_subs_key env key m =
    let subs = load_subscriptions env in
    let busy = record m { running = true } in
    case_of key.text
      (("up" ∷ "k" ∷ [], stays (cursor_up m))
        ∷ ("down" ∷ "j" ∷ [], stays (cursor_down (length subs) m))
        ∷ ("d" ∷ "delete" ∷ [], with_sub subs (ask_delete_sub m) m)
        ∷ ("u" ∷ [], asks busy (Job.execute_action "sub-update"))
        ∷ ("p" ∷ [], asks busy (Job.update_subs_over (socks_addr env)))
        ∷ ("enter" ∷ [], with_sub subs (λ sub. asks busy (Job.update_sub sub.group)) m)
        ∷ (
          "o" ∷ [],
          with_sub subs (λ sub. asks busy (Job.update_sub_over sub.group (socks_addr env))) m,
        )
        ∷ ("r" ∷ "e" ∷ [], with_sub subs (ask_rename_group m) m)
        ∷ ("a" ∷ [], stays (open_input "Subscription URL" "" "sub-add" m))
        ∷ [])
      (stays m)
