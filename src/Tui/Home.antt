-- ===== src/Tui/Home.antt =====
-- internal/tui/tui.go: the tab `home` (`homeItems`, `handleHomeKey`, `executeHomeAction`). The icons
-- of the items are not modelled.
use bypath.Base.{
  String, string_eq, true, false, ◌==◌, if◌then◌else◌, List, [], ◌∷◌, Option, none, some, length,
  get_elem?, format_int, ◌<>◌,
}
use bypath.Tui.{
  Model, Key, Job, Stepped, case_of, stays, asks, open_input, open_confirm, cursor_up, cursor_down,
}
use bypath.Tui.Files.{Surroundings, socks_port}

pub record HomeItem : Type 0 where
  pub label : String
  pub action : String

unfoldable pub engine_label : Surroundings → String
engine_label env = elim env.loaded [
  | some (port, engine) ↦ if engine == "" then "Engine: auto (sing-box)" else "Engine: " <> engine
  | none ↦ "Engine: auto (sing-box)"
]

-- the items that both menus have
unfoldable pub common_items : Surroundings → Model → List HomeItem
unfolding engine_label socks_port
common_items env m =
    let auto_label = if env.enabled then "Auto Start (enabled)" else "Auto Start (disabled)" in
    let update_label =
      if m.update_info == "" then "Update Bypath" else "Update Bypath ⚡ UPDATE AVAILABLE" in
    record { label = auto_label; action = "autostart-toggle" }
    ∷ record { label = engine_label env; action = "change-engine" }
    ∷ record { label = update_label; action = "self-update" }
    ∷ record { label = "Update All Subs"; action = "sub-update" }
    ∷ record { label = "Add Subscription"; action = "sub-add" }
    ∷ record { label = "Add Server (URI)"; action = "add-link" }
    ∷ record {
      label = "Change Port (current: " <> format_int (socks_port env) <> ")";
      action = "change-port";
    }
    ∷ record { label = "Version Info"; action = "status" }
    ∷ record { label = "Exit"; action = "exit" }
    ∷ []

-- `homeItems`
unfoldable pub home_items : Surroundings → Model → List HomeItem
unfolding common_items
home_items env m =
    if m.status_info == "running"
    then (record { label = "Restart Gateway"; action = "restart" }
        ∷ record { label = "Stop Gateway"; action = "stop" }
        ∷ record { label = "Status (test connection)"; action = "live-status" }
        ∷ common_items env m)
    else record { label = "Start Gateway"; action = "start" } ∷ common_items env m

-- `executeHomeAction`
unfoldable pub execute_home_action : Surroundings → HomeItem → Model → Option Stepped
unfolding socks_port case_of
execute_home_action env item m =
    case_of item.action
      (("exit" ∷ [], asks m Job.quit)
        ∷ ("sub-add" ∷ [], stays (open_input "Subscription URL" "" "sub-add" m))
        ∷ (
          "add-link" ∷ [],
          stays (open_input "Server URI (vmess://, vless://, ss://...)" "" "add-link" m),
        )
        ∷ (
          "change-port" ∷ [],
          stays (open_input "New SOCKS/Mixed port" (format_int (socks_port env)) "change-port" m),
        )
        ∷ (
          "self-update" ∷ [],
          stays (open_confirm "Update bypath to latest version?" true "do-update-ask-method" m),
        )
        ∷ ("restart" ∷ [], stays (open_confirm "Restart gateway?" true "restart-gateway" m))
        ∷ ("stop" ∷ [], stays (open_confirm "Stop gateway?" false "stop-gateway" m))
        ∷ (
          "live-status" ∷ [],
          asks (record m { cancellable = true; running = true }) Job.live_status,
        )
        ∷ [])
      (asks (record m { running = true }) (Job.execute_action item.action))

-- `homeItems[m.cursor]` and its action: none if the index is out of range
unfoldable pub execute_current : Surroundings → Model → Option Stepped
unfolding home_items execute_home_action
execute_current env m = elim (get_elem? (home_items env m) m.cursor) [
  | none ↦ none
  | some item ↦ execute_home_action env item m
]

-- `handleHomeKey`
unfoldable pub handle_home_key : Surroundings → Key → Model → Option Stepped
unfolding home_items execute_current case_of
handle_home_key env key m =
    case_of key.text
      (("up" ∷ "k" ∷ [], stays (cursor_up m))
        ∷ ("down" ∷ "j" ∷ [], stays (cursor_down (length (home_items env m)) m))
        ∷ ("enter" ∷ " " ∷ [], execute_current env m)
        ∷ [])
      (stays m)
