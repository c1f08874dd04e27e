-- ===== src/Tui/Update/Sound.antt =====
-- What holds of the menu between two messages: the index of the active group is in range, and an open
-- dialog says what its action does.
use bypath.Base.{
  arith, ℕ, ◌-◌, ◌<◌, String, string_eq, true, ◌==◌, List, [], ◌∷◌, Option, none, some, ◌≡◌, refl,
  ◌⊎◌, inl, inr, length, Bool-cases, ◌<>◌, format_nat,
}
use bypath.Tui.{Job, Written, remove_server, nothing, group_removed, sub_removed, Model, Stepped}
use bypath.Tui.Files.{LinkEntry, SubEntry}
use bypath.Tui.Servers.{link_name, index_of, index_of_number}
use bypath.Tui.Update.{find_other, first_other, restored_group}

-- an index into the groups, or 0 where there is none
abbrev pub IsIndex : List String → ℕ → Type 0
IsIndex gs i = (i < length gs) ⊎ ((gs ≡ []) × (i ≡ 0))

-- The actions of the dialogs to confirm, with what each dialog asks.
pub data IsAsked : String → String → Type 0 where
  group :
      (g : String)
      → IsAsked ("delete-group-" <> g) ("Delete group '" <> g <> "' and all its links?")
  server :
      (g : String) (l : LinkEntry)
      → IsAsked
          ("delete-server|" <> g <> "|" <> format_nat l.idx)
          ("Delete server '" <> link_name l <> "'?")
  sub :
      (s : SubEntry)
      → IsAsked
          ("delete-sub|" <> s.group <> "|" <> format_nat s.idx)
          ("Delete subscription from '" <> s.group <> "'?")
  self_update : IsAsked "do-update-ask-method" "Update bypath to latest version?"
  method : IsAsked "do-update-method" "Download method?"
  restart : IsAsked "restart-gateway" "Restart gateway?"
  stop : IsAsked "stop-gateway" "Stop gateway?"

abbrev pub IsSound : Model → Type 0
IsSound m =
    IsIndex m.groups m.active_group
    × (m.confirm_mode ≡ true → IsAsked m.confirm_action m.confirm_label)

pub index_of-lt :
    (name : String) (gs : List String) (i : ℕ) → index_of name gs ≡ some i → i < length gs
unfolding index_of
index_of-lt name [] i e = cc
index_of-lt name (g ∷ gs) i e = ground (arith, e, index_of-lt name gs (i - 1))

pub index_of_number-lt :
    (n : ℕ) (gs : List String) (i : ℕ) → index_of_number n gs ≡ some i → i < length gs
unfolding index_of_number
index_of_number-lt n [] i e = cc
index_of_number-lt n (g ∷ gs) i e =
    ground (arith, e, index_of_number-lt n gs (i - 1), index_of_number-lt (n - 1) gs (i - 1))

-- a job that removes no server, of a step that removes nothing
abbrev pub IsQuiet : Job → Written → Type 0
IsQuiet (remove_server i g) w = ⊥
IsQuiet _ nothing = Unit
IsQuiet _ (group_removed g) = ⊥
IsQuiet _ (sub_removed g i) = ⊥

-- what holds of the steps of the tabs
abbrev pub Steps : Stepped → Type 0
Steps s = IsSound s.model × IsQuiet s.job s.written

find_other-lt : (gs : List String) (i : ℕ) → find_other gs ≡ some i → i < length gs
unfolding find_other
find_other-lt [] i e = cc
find_other-lt (g ∷ gs) i e = ground (arith, e, find_other-lt gs (i - 1))

first-IsIndex : (gs : List String) → IsIndex gs 0
first-IsIndex [] = inr (refl, refl)
first-IsIndex (g ∷ gs) = inl (omega arith)

-- an index that is found, or another one
found-IsIndex :
    (gs : List String) (o : Option ℕ) (i : ℕ)
    → ((j : ℕ) → o ≡ some j → j < length gs)
    → IsIndex gs i
    → IsIndex gs (elim o [ none ↦ i | some j ↦ j ])
found-IsIndex gs none i k h = h
found-IsIndex gs (some j) i k h = inl (k j refl)

pub first_other-IsIndex : (gs : List String) → IsIndex gs (first_other gs)
unfolding first_other
first_other-IsIndex gs = found-IsIndex gs (find_other gs) 0 (find_other-lt gs) (first-IsIndex gs)

pub restored_group-IsIndex :
    (before target : String) (gs : List String) → IsIndex gs (restored_group before target gs)
unfolding restored_group
restored_group-IsIndex before target gs =
    let other = first_other-IsIndex gs in
    found-IsIndex gs (index_of before gs) _ (index_of-lt before gs)
      (elim (Bool-cases (target == "")) [
        | inl e ↦ rw e other
        | inr e ↦ rw e (found-IsIndex gs (index_of target gs) _ (index_of-lt target gs) other)
      ])
