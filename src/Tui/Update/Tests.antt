-- ===== src/Tui/Update/Tests.antt =====
-- Runs of the menu at concrete files and keys.
use mathlib.Core.Option.{some-injective}
use bypath.Base.{
  cut_prefix, pos, ℕ, zero, suc, String, string_eq, ◌==◌, if◌then◌else◌, true, false, List, [], ◌∷◌,
  Option, none, some, ◌≡◌, refl, ◌↔◌, inl, inr, Option-cases, subst, sym, ap, ◌∙◌, map, negsuc,
}
use bypath.Tui.{
  BenchEntry, Model, Key, Msg, Stepped, other_key, key_msg, status_msg, bench_done_msg, servers,
  Job, Written,
}
use bypath.Tui.Files.{Surroundings, StoredLink, LinkEntry}
use bypath.Tui.Servers.{sorted_results}
use bypath.Tui.Update.{initial_model, update}
use bypath.Tui.Update.Keeps.{Overruns, Deletes}
use bypath.Tui.Update.Reached.{Reached, starts, then_on, update-Deletes}
use bypath.Tui.Update.Panics.{update-panics_iff}

abbrev key_of : String → Key
key_of t = record { key_type = other_key; text = t; runes = "" }

abbrev two_links : List StoredLink
two_links =
    record { remark = "one"; protocol = "vless"; address = "a.example"; port = pos 443 }
    ∷ record { remark = "two"; protocol = "vless"; address = "b.example"; port = pos 443 }
    ∷ []

-- a directory with the group `work` and a file that is none, and one that cannot be read
abbrev files : Surroundings
files = record {
  dir = some (
      record { name = "work.json"; is_dir = false }
      ∷ record { name = ".active"; is_dir = false }
      ∷ []);
  links_of = λ g. if g == "work" then some two_links else none;
  subs_of = λ g. some [];
  removes = true;
  write_error = λ g. none;
  loaded = none;
  enabled = false;
}

abbrev no_files : Surroundings
no_files = record files { dir = none }

-- the model behind some messages
abbrev after_messages : Surroundings → List Msg → Model → Option Model
after_messages env [] m = some m
after_messages env (msg ∷ msgs) m = elim (update env msg m) [
  | none ↦ none
  | some s ↦ after_messages env msgs s.model
]

abbrev downs : ℕ → List Msg
downs zero = status_msg "stopped" ∷ []
downs (suc n) = key_msg (key_of "down") ∷ downs n

abbrev cursor_of : Option Model → Option ℕ
cursor_of none = none
cursor_of (some m) = some m.cursor

abbrev job_of : Option Stepped → Option (Job × Written)
job_of none = none
job_of (some s) = some (s.job, s.written)

after_messages-Reached :
    (env : Surroundings) (msgs : List Msg) {m n : Model}
    → Reached m
    → after_messages env msgs m ≡ some n
    → Reached n
after_messages-Reached env [] {m} h e = subst Reached (some-injective m _ e) h
after_messages-Reached env (msg ∷ msgs) {m} {n} h e = elim (Option-cases (update env msg m)) [
  | inl f ↦ absurd (
      none_left (
        ap
          (λ (o : Option Stepped). elim o [
            | none ↦ none
            | some s ↦ after_messages env msgs s.model
          ])
          (sym f)
        ∙ e))
  | inr (s, f) ↦ after_messages-Reached env msgs (then_on env msg h f) (
      ap (λ (o : Option Stepped). elim o [ none ↦ none | some t ↦ after_messages env msgs t.model ])
        (sym f)
      ∙ e)
]
  where
    none_left : {k : Model} → none ≡ some k → ⊥
    none_left g = cc

-- The gateway stops while the cursor is on the last item of the longer menu, and `enter` panics.
abbrev left_below : Model
left_below = record (initial_model files) { cursor = 11; status_info = "stopped" }

left_below-Reached : Reached left_below
unfolding update initial_model cut_prefix
left_below-Reached =
    after_messages-Reached files (status_msg "running" ∷ downs 12) (starts files) refl

update-panics_iff_example :
    (update files (key_msg (key_of "enter")) left_below ≡ none)
    ↔ Overruns files left_below (key_msg (key_of "enter"))
update-panics_iff_example = update-panics_iff left_below-Reached files (key_msg (key_of "enter"))

stale_test : update files (key_msg (key_of "enter")) left_below ≡ none
unfolding update initial_model cut_prefix
stale_test = refl

-- Results of a bench, and no group: `enter` on the servers tab panics, too.
benched_test :
    after_messages no_files
      (bench_done_msg (record { idx = 1; ping = pos 9; relay = pos 9 } ∷ [])
        ∷ key_msg (key_of "tab")
        ∷ key_msg (key_of "enter")
        ∷ [])
      (initial_model no_files)
    ≡ none
unfolding update initial_model cut_prefix
benched_test = refl

-- The keys x, y and `enter` on the servers tab delete the group.
abbrev asked_group : List Msg
asked_group = key_msg (key_of "tab") ∷ key_msg (key_of "x") ∷ key_msg (key_of "y") ∷ []

abbrev or_initial : Option Model → Model
or_initial none = initial_model files
or_initial (some m) = m

abbrev asking : Model
asking = or_initial (after_messages files asked_group (initial_model files))

asking-Reached : Reached asking
unfolding update initial_model cut_prefix
asking-Reached = after_messages-Reached files asked_group (starts files) refl

abbrev stepped : Option Stepped → Model → Stepped
stepped none m = record { model = m; job = Job.idle; written = Written.nothing }
stepped (some s) m = s

abbrev emptied : Stepped
emptied = stepped (update files (key_msg (key_of "enter")) asking) asking

emptied_test : update files (key_msg (key_of "enter")) asking ≡ some emptied
unfolding update initial_model cut_prefix
emptied_test = refl

removed_test : (emptied.written ≡ Written.group_removed "work") × (emptied.model.groups ≡ [])
unfolding update initial_model cut_prefix
removed_test = (refl, refl)

update-Deletes_example : Deletes asking (key_msg (key_of "enter")) emptied
update-Deletes_example = update-Deletes asking-Reached files (key_msg (key_of "enter")) emptied_test

-- The second link is removed by d, y and `enter`.
abbrev on_second : Model
on_second = record (initial_model files) { tab = servers; cursor = 1 }

abbrev second_link : LinkEntry
second_link = record { idx = 2; server = "b.example"; remark = "two" }

-- The links with a relay come first, the fastest in front, then those with a ping.
sorted_test :
    map
      (λ (e : BenchEntry). e.idx)
      (sorted_results (record (initial_model files) {
        bench_sort_asc = true;
        bench_results =
            record { idx = 1; ping = negsuc 0; relay = negsuc 0 }
            ∷ record { idx = 2; ping = pos 40; relay = negsuc 0 }
            ∷ record { idx = 3; ping = pos 90; relay = pos 300 }
            ∷ record { idx = 4; ping = pos 95; relay = pos 200 }
            ∷ [];
      }))
    ≡ 4 ∷ 3 ∷ 2 ∷ 1 ∷ []
unfolding sorted_results initial_model
sorted_test = refl
