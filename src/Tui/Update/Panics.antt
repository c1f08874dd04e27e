-- ===== src/Tui/Update/Panics.antt =====
-- When the menu panics, and only then.
use bypath.Base.{
  arith, ℕ, zero, suc, ◌<◌, ◌≤◌, string_eq, true, ◌&&◌, ltb, List, [], ◌∷◌, none, some, ◌≡◌, refl,
  ◌↔◌, ◌⊎◌, inl, inr, length, get_elem?, ap, ◌∙◌,
}
use bypath.Tui.{Model, Key, Msg, case_of, is_any_of}
use bypath.Tui.Files.{Surroundings, LinkEntry}
use bypath.Tui.Home.{home_items, execute_current, handle_home_key}
use bypath.Tui.Servers.Order.{length-sorted_results}
use bypath.Tui.Servers.{
  links_at, with_group, select_result, sorted_results, select_under_cursor, servers_key,
  current_links, handle_servers_key,
}
use bypath.Tui.Update.{tab_key, ready_key, mode_key, handle_key, update}
use bypath.Tui.Update.Branches.{Fine-none}
use bypath.Tui.Update.Keeps.{Keeps, IsReady, Overruns, below_menu, without_groups, update-Fine}
use bypath.Tui.Update.Reached.{Reached, Reached-IsSound}

-- A key in a menu that is ready goes to its tab.
tab_of_ready :
    (env : Surroundings) (key : Key) (m : Model)
    → IsReady m
    → (key.text ≡ "enter") ⊎ (key.text ≡ " ")
    → handle_key env key m ≡ tab_key m.tab env key m
unfolding handle_key mode_key ready_key case_of is_any_of
tab_of_ready env key m r (inl e) = rw (e, r.no_dialog, r.no_input, r.no_output, r.no_action) refl
tab_of_ready env key m r (inr e) = rw (e, r.no_dialog, r.no_input, r.no_output, r.no_action) refl

home-enter :
    (env : Surroundings) (key : Key) (m : Model)
    → (key.text ≡ "enter") ⊎ (key.text ≡ " ")
    → handle_home_key env key m ≡ execute_current env m
unfolding handle_home_key case_of is_any_of
home-enter env key m (inl e) = rw e refl
home-enter env key m (inr e) = rw e refl

servers-enter :
    (env : Surroundings) (key : Key) (m : Model) (links : List LinkEntry)
    → (key.text ≡ "enter") ⊎ (key.text ≡ " ")
    → servers_key env key links m ≡ select_under_cursor links m
unfolding servers_key case_of is_any_of
servers-enter env key m links (inl e) = rw e refl
servers-enter env key m links (inr e) = rw e refl

within {ℓ} :
    {A : Type ℓ} (xs : List A) (i : ℕ) → i < length xs → (a : A) × (get_elem? xs i ≡ some a)
within [] i h = absurd (omega (arith, h))
within (x ∷ xs) zero h = (x, refl)
within (x ∷ xs) (suc i) h = within xs i (omega (arith, h))

none_at {ℓ} : {A : Type ℓ} (xs : List A) (i : ℕ) → length xs ≤ i → get_elem? xs i ≡ none
none_at [] i h = refl
none_at (x ∷ xs) zero h = absurd (omega (arith, h))
none_at (x ∷ xs) (suc i) h = none_at xs i (omega (arith, h))

below_menu-panics :
    (env : Surroundings) (m : Model)
    → length (home_items env m) ≤ m.cursor
    → execute_current env m ≡ none
unfolding execute_current
below_menu-panics env m low = rw (none_at (home_items env m) m.cursor low, execute_current) refl

without_groups-panics :
    (m : Model) (links : List LinkEntry)
    → m.groups ≡ []
    → m.bench_done ≡ true
    → m.cursor < length m.bench_results
    → select_under_cursor links m ≡ none
unfolding select_under_cursor select_result with_group
without_groups-panics m links empty benched low =
    let shown : (m.bench_done && ltb m.cursor (length m.bench_results)) ≡ true =
      ground (arith, benched, low) in
    let (r, e) = within (sorted_results m) m.cursor (rw (length-sorted_results m) low) in
    let away : get_elem? m.groups m.active_group ≡ none = rw empty refl in
    rw (shown, e, away, select_result, with_group) refl

no_links-enter :
    (env : Surroundings) (key : Key) (m : Model)
    → m.groups ≡ []
    → handle_servers_key env key m ≡ servers_key env key [] m
unfolding handle_servers_key current_links links_at
no_links-enter env key m empty = rw empty refl

Overruns-panics :
    (env : Surroundings) (msg : Msg) (m : Model) → Overruns env m msg → update env msg m ≡ none
unfolding update tab_key
Overruns-panics env _ m (below_menu key r at e low) =
    tab_of_ready env key m r e
    ∙ ap (λ t. tab_key t env key m) at
    ∙ home-enter env key m e
    ∙ below_menu-panics env m low
Overruns-panics env _ m (without_groups key r at e empty benched low) =
    tab_of_ready env key m r e
    ∙ ap (λ t. tab_key t env key m) at
    ∙ no_links-enter env key m empty
    ∙ servers-enter env key m [] e
    ∙ without_groups-panics m [] empty benched low

-- In a menu that the program reaches, a message panics exactly if it is `enter` or space with no dialog,
-- no output and no action: on the home tab with the cursor below the menu, or on the servers tab where
-- results of a bench are shown at the cursor and there is no group.
pub update-panics_iff :
    {m : Model}
    → Reached m
    → (env : Surroundings) (msg : Msg) → (update env msg m ≡ none) ↔ Overruns env m msg
update-panics_iff {m} h env msg = (
  λ e. Fine-none (Overruns env m msg) (Keeps m msg) (update-Fine env msg m (Reached-IsSound h)) e,
  Overruns-panics env msg m,
)
