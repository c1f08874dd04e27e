-- ===== src/Tui/Update/Tabs.antt =====
-- What a key does on a tab: it keeps the menu sound and deletes nothing, or panics.
use bypath.Base.{
  arith, ℕ, suc, zero, ◌+◌, ◌<◌, ◌≤◌, eq_iff, String, string_eq, Bool, true, false, ◌==◌, ◌&&◌,
  if◌then◌else◌, ltb, List, [], ◌∷◌, Option, none, some, ◌≡◌, refl, ◌⊎◌, inl, inr, length,
  get_elem?, Bool-cases, Option-cases,
}
use bypath.Tui.{
  Job, nothing, stays, asks, case_of, is_any_of, cursor_down, open_confirm, Model, Key, Stepped,
}
use bypath.Tui.Files.{load_group_links, Surroundings, LinkEntry, SubEntry}
use bypath.Tui.Home.{HomeItem, home_items, execute_home_action, execute_current, handle_home_key}
use bypath.Tui.Subs.{ask_delete_sub, with_sub, handle_subs_key}
use bypath.Tui.Servers.{
  links_at, with_group, switch_group, select_result, select_current, sorted_results, start_ping,
  start_bench, test_current, ask_delete_group, ask_delete_server, select_under_cursor, flip_sort,
  servers_key, current_links, handle_servers_key,
}
use bypath.Tui.Update.Branches.{
  Fine, fails, steps, case_of-branch, case_of-default, if-branch, Option-branch, case_of-case,
  if-case, Option-case,
}
use bypath.Tui.Update.Sound.{
  IsIndex, IsAsked, IsSound, IsQuiet, Steps, group, server, sub, self_update, restart, stop,
  index_of-lt, index_of_number-lt,
}

pub either : (text a b : String) → is_any_of text (a ∷ b ∷ []) ≡ true → (text ≡ a) ⊎ (text ≡ b)
unfolding is_any_of
either text a b e = ground (arith, e, (eq_iff text a).0, (eq_iff text b).0)

beyond {ℓ} : {A : Type ℓ} (xs : List A) (i : ℕ) → get_elem? xs i ≡ none → length xs ≤ i
beyond [] i e = omega arith
beyond (x ∷ xs) zero e = cc
beyond (x ∷ xs) (suc i) e = omega (arith, beyond xs i e)

links_at-some :
    (env : Surroundings) (gs : List String) (i : ℕ)
    → IsIndex gs i
    → (links : List LinkEntry) × (links_at env gs i ≡ some links) × (gs ≡ [] → links ≡ [])
unfolding links_at
links_at-some env [] i h = ([], refl, λ _. refl)
links_at-some env (g ∷ gs) i h = elim (Option-cases (get_elem? (g ∷ gs) i)) [
  | inl e ↦ absurd (ground (arith, h, beyond (g ∷ gs) i e))
  | inr (g1, e) ↦ (load_group_links env g1, rw (e, links_at) refl, λ f. cc)
]

-- no link is at an index of no links, and there are not some
shown-none : (i : ℕ) (ls : List LinkEntry) (l : LinkEntry) → ls ≡ [] → get_elem? ls i ≡ some l → ⊥
shown-none i [] l _ e = cc
shown-none i (x ∷ xs) l e _ = cc

shown-some : (ls : List LinkEntry) → ls ≡ [] → ltb 0 (length ls) ≡ true → ⊥
shown-some [] _ e = cc
shown-some (x ∷ xs) e _ = cc

module _ (env : Surroundings) (key : Key) (m : Model) (h : IsSound m) (C : Type 0) where
  abbrev Runs : Option Stepped → Type 0
  Runs = Fine C Steps

  unchanged : Runs (stays m)
  unchanged = steps (h, tt)

  kept : (n : Model) (job : Job) → IsSound n → IsQuiet job nothing → Runs (asks n job)
  kept n job sound quiet = steps (sound, quiet)

  opened :
      (label : String) (yes_first : Bool) (action : String)
      → IsAsked action label
      → Runs (stays (open_confirm label yes_first action m))
  opened label yes_first action asked = steps ((h.0, λ _. asked), tt)

  cursor_down-Fine : (n : ℕ) → Runs (stays (cursor_down n m))
  cursor_down-Fine n = elim (Bool-cases (ltb (m.cursor + 1) n)) [
    | inl e ↦ rw e (steps (h, tt))
    | inr e ↦ rw e (steps (h, tt))
  ]

  execute_home_action-Fine : (item : HomeItem) → Runs (execute_home_action env item m)
  unfolding execute_home_action
  execute_home_action-Fine item =
      search
        (
          case_of-branch Runs,
          case_of-default Runs,
          kept,
          tt,
          h,
          opened _ true _ self_update,
          opened _ true _ restart,
          opened _ false _ stop,
        )
        depth 40

  execute_current-Fine : (length (home_items env m) ≤ m.cursor → C) → Runs (execute_current env m)
  unfolding execute_current
  execute_current-Fine c =
      Option-case Runs (get_elem? (home_items env m) m.cursor) _ _ (λ f. fails (c (beyond _ _ f)))
        (λ item f. execute_home_action-Fine item)

  pub handle_home_key-Fine :
      ((key.text ≡ "enter") ⊎ (key.text ≡ " ") → length (home_items env m) ≤ m.cursor → C)
      → Runs (handle_home_key env key m)
  unfolding handle_home_key
  handle_home_key-Fine c =
      search (case_of-branch Runs, entered, case_of-default Runs, kept, tt, h, cursor_down-Fine)
        depth 20
    where
      entered :
          (default : Option Stepped) (cases : List (List String × Option Stepped))
          → Runs (case_of key.text cases default)
          → Runs (case_of key.text (("enter" ∷ " " ∷ [], execute_current env m) ∷ cases) default)
      entered default cases =
          case_of-case Runs key.text ("enter" ∷ " " ∷ []) _ default cases
            (λ e. execute_current-Fine (c (either _ _ _ e)))

  with_sub-Fine :
      (es : List SubEntry) (f : SubEntry → Option Stepped)
      → ((s : SubEntry) → Runs (f s))
      → Runs (with_sub es f m)
  unfolding with_sub
  with_sub-Fine es f k = Option-branch Runs (get_elem? es m.cursor) _ _ unchanged k

  asked_sub : (s : SubEntry) → Runs (ask_delete_sub m s)
  asked_sub s = opened _ false _ (sub s)

  pub handle_subs_key-Fine : Runs (handle_subs_key env key m)
  unfolding handle_subs_key
  handle_subs_key-Fine =
      search
        (
          case_of-branch Runs,
          case_of-default Runs,
          kept,
          tt,
          h,
          with_sub-Fine,
          cursor_down-Fine,
          asked_sub,
        )
        depth 40

  -- the only way to have no active group is to have none
  with_group-Fine :
      (f : String → Option Stepped)
      → (m.groups ≡ [] → C)
      → ((g : String) → Runs (f g))
      → Runs (with_group m f)
  unfolding with_group
  with_group-Fine f c k =
      Option-case Runs (get_elem? m.groups m.active_group) _ _
        (λ e. fails (
          c (elim h.0 [
            | inl low ↦ absurd (omega (arith, low, beyond m.groups m.active_group e))
            | inr (empty, first) ↦ empty
          ])))
        (λ g e. k g)

  switch_group-Fine :
      (o : Option ℕ)
      → ((i : ℕ) → o ≡ some i → i < length m.groups)
      → Runs (stays (switch_group o m))
  unfolding switch_group
  switch_group-Fine none k = unchanged
  switch_group-Fine (some i) k = steps ((inl (k i refl), h.1), tt)

  flip_sort-Fine : Runs (stays (flip_sort m))
  unfolding flip_sort
  flip_sort-Fine = elim (Bool-cases (m.bench_done && ltb 0 (length m.bench_results))) [
    | inl e ↦ rw e (steps (h, tt))
    | inr e ↦ rw e (steps (h, tt))
  ]

  ask_delete_group-Fine : Runs (ask_delete_group m)
  unfolding ask_delete_group
  ask_delete_group-Fine =
      Option-branch Runs (get_elem? m.groups m.active_group) _ _ unchanged
        (λ g. if-branch Runs (g == "default") _ _ (steps (h, tt)) (opened _ false _ (group g)))

  -- with links that are shown there is a group
  module _ (links : List LinkEntry) (none_shown : m.groups ≡ [] → links ≡ []) where
    linked-Fine :
        (f : LinkEntry → String → Option Stepped)
        → ((l : LinkEntry) (g : String) → Runs (f l g))
        → Runs (elim (get_elem? links m.cursor) [ none ↦ stays m | some l ↦ with_group m (f l) ])
    linked-Fine f k =
        Option-case Runs (get_elem? links m.cursor) _ _ (λ _. unchanged)
          (λ l e.
            with_group-Fine (f l)
              (λ empty. absurd (shown-none m.cursor links l (none_shown empty) e)) (k l))

    test_current-Fine : Runs (test_current links m)
    unfolding test_current
    test_current-Fine = linked-Fine _ (λ l g. steps (h, tt))

    ask_delete_server-Fine : Runs (ask_delete_server links m)
    unfolding ask_delete_server
    ask_delete_server-Fine = linked-Fine _ (λ l g. opened _ false _ (server g l))

    select_under_cursor-Fine :
        (m.groups ≡ [] → m.bench_done ≡ true → m.cursor < length m.bench_results → C)
        → Runs (select_under_cursor links m)
    unfolding select_under_cursor select_result select_current
    select_under_cursor-Fine c =
        if-case Runs (m.bench_done && ltb m.cursor (length m.bench_results)) _ _
          (λ e. Option-branch Runs (get_elem? (sorted_results m) m.cursor) _ _ unchanged (λ r.
            with_group-Fine _ (λ empty. c empty (ground (arith, e)) (ground (arith, e)))
              (λ g. steps (h, tt))))
          (λ _. linked-Fine _ (λ l g. steps (h, tt)))

    benched-Fine :
        (f : String → Option Stepped)
        → ((g : String) → Runs (f g))
        → Runs (if ltb 0 (length links) then with_group m f else stays m)
    benched-Fine f k =
        if-case Runs (ltb 0 (length links)) _ _
          (λ e. with_group-Fine f (λ empty. absurd (shown-some links (none_shown empty) e)) k)
          (λ _. unchanged)

    start_ping-Fine : Runs (if ltb 0 (length links) then start_ping env m else stays m)
    unfolding start_ping
    start_ping-Fine = benched-Fine _ (λ g. steps (h, tt))

    start_bench-Fine : Runs (if ltb 0 (length links) then start_bench env m else stays m)
    unfolding start_bench
    start_bench-Fine = benched-Fine _ (λ g. steps (h, tt))

    servers_key-Fine :
        ((key.text ≡ "enter") ⊎ (key.text ≡ " ")
          → m.groups ≡ []
          → m.bench_done ≡ true
          → m.cursor < length m.bench_results
          → C)
        → Runs (servers_key env key links m)
    unfolding servers_key
    servers_key-Fine c =
        search
          (
            case_of-branch Runs,
            entered,
            case_of-default Runs,
            kept,
            tt,
            h,
            cursor_down-Fine,
            λ (n : ℕ). switch_group-Fine _ (index_of_number-lt n m.groups),
            switch_group-Fine _ (index_of-lt "default" m.groups),
            start_ping-Fine,
            start_bench-Fine,
            flip_sort-Fine,
            test_current-Fine,
            ask_delete_group-Fine,
            ask_delete_server-Fine,
          )
          depth 60
      where
        entered :
            (default : Option Stepped) (cases : List (List String × Option Stepped))
            → Runs (case_of key.text cases default)
            → Runs (
                case_of key.text
                  (("enter" ∷ " " ∷ [], select_under_cursor links m) ∷ cases)
                  default)
        entered default cases =
            case_of-case Runs key.text ("enter" ∷ " " ∷ []) _ default cases
              (λ e. select_under_cursor-Fine (c (either _ _ _ e)))

  pub handle_servers_key-Fine :
      ((key.text ≡ "enter") ⊎ (key.text ≡ " ")
        → m.groups ≡ []
        → m.bench_done ≡ true
        → m.cursor < length m.bench_results
        → C)
      → Runs (handle_servers_key env key m)
  unfolding handle_servers_key current_links
  handle_servers_key-Fine c =
      let (links, e, none_shown) = links_at-some env m.groups m.active_group h.0 in
      rw (e, handle_servers_key, current_links) (servers_key-Fine links none_shown c)
