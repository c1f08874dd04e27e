-- ===== src/Tui/Update/Named.antt =====
-- That the actions of the dialogs delete what their labels name, keep the menu sound, and do not panic.
use mathlib.Core.Option.{some-injective}
use bypath.Base.{
  ◌^◌, ◌≤◌, ◌<◌, ◌⊎◌, arith, ℤ, pos, negsuc, ℕ, String, string_eq, Bool, true, false, ◌==◌,
  if◌then◌else◌, ltb, leb, List, [], ◌∷◌, Option, none, some, ◌≡◌, ◌≢◌, refl, inl, inr, Bool-cases,
  Option-cases, subst, sym, ap, ◌∙◌, ◌<>◌, cut_prefix, cut_first, atoi, ok, err, Result, contains,
  format_nat, length,
}
use bypath.Tui.{Model, Stepped, Written, Job, remove_server, nothing, group_removed, sub_removed}
use bypath.Tui.Files.{Surroundings, LinkEntry, find_groups, without_file}
use bypath.Tui.Servers.{link_name}
use bypath.Tui.Dialogs.{
  remove_at, show_removal, confirm_group, confirm_server, confirm_sub, remove_sub, confirmed,
}
use bypath.Tui.Update.Branches.{Fine, steps, if-branch, Option-case}
use bypath.Tui.Update.Sound.{
  IsQuiet, IsIndex, IsAsked, IsSound, group, server, sub, self_update, method, restart, stop,
}
use bypath.Tui.Update.Prefixes.{differ, cut_prefix-append, cut_prefix-differ}
use bypath.Tui.Update.Bars.{atoi-format_nat, cut_first-name, atoi-cut_first-pos}

-- The group and the number that are read of an action: those written there, if no bar is in the name
-- and the number fits an int.
pub data IsRead (shown : String) (n : ℕ) : String → ℤ → Type 0 where
  as_written : IsRead shown n shown (pos n)
  barred : (g : String) (i : ℤ) → contains b'|' shown ≡ true → IsRead shown n g i
  too_large : (i : ℤ) → 2 ^ 63 ≤ n → IsRead shown n shown i

-- What a dialog with this action and this label may delete: the group that both name; the
-- subscription of the number in the action, of the group that both name; or the link of the number and
-- of the group in the action, where the label asks to delete a server. A bar in the name of the group,
-- or a number that fits no int, makes another group or number of it.
pub data Names (action label : String) : Job → Written → Type 0 where
  the_group :
      (g : String) {job : Job}
      → IsQuiet job nothing
      → action ≡ "delete-group-" <> g
      → label ≡ "Delete group '" <> g <> "' and all its links?"
      → Names action label job (group_removed g)
  the_sub :
      (shown g : String) (n : ℕ) (i : ℤ) {job : Job}
      → IsQuiet job nothing
      → action ≡ "delete-sub|" <> shown <> "|" <> format_nat n
      → label ≡ "Delete subscription from '" <> shown <> "'?"
      → IsRead shown n g i
      → Names action label job (sub_removed g i)
  the_server :
      (shown g : String) (l : LinkEntry) (i : ℤ)
      → action ≡ "delete-server|" <> shown <> "|" <> format_nat l.idx
      → label ≡ "Delete server '" <> link_name l <> "'?"
      → IsRead shown l.idx g i
      → Names action label (remove_server i g) nothing

Nat-cases : (n : ℕ) → (n < 2 ^ 63) ⊎ (2 ^ 63 ≤ n)
Nat-cases n = omega arith

-- A step that keeps the menu sound, and deletes nothing or what the dialog says.
pub data Says (action label : String) : Stepped → Type 0 where
  quiet : {s : Stepped} → IsSound s.model → IsQuiet s.job s.written → Says action label s
  says : {s : Stepped} → IsSound s.model → Names action label s.job s.written → Says action label s

other {ℓ} : {A : Type ℓ} {a : A} {o : Option A} → o ≡ none → o ≡ some a → ⊥
other {o = none} e f = cc
other {o = some x} e f = cc

-- what the actions of the dialogs to delete say
group_named :
    {action label : String}
    → IsAsked action label
    → (name : String) → cut_prefix "delete-group-" action ≡ some name
    → (action ≡ "delete-group-" <> name)
      × (label ≡ "Delete group '" <> name <> "' and all its links?")
unfolding cut_prefix differ
group_named (group g) name e =
    let same = some-injective g name (sym (cut_prefix-append "delete-group-" g) ∙ e) in
    (
      ap (λ x. "delete-group-" <> x) same,
      ap (λ x. "Delete group '" <> x <> "' and all its links?") same,
    )
group_named (server g l) name e = absurd (
    other (cut_prefix-differ "delete-group-" "delete-server|" (g <> "|" <> format_nat l.idx) refl)
      e)
group_named (sub s) name e = absurd (
    other
      (cut_prefix-differ "delete-group-" "delete-sub|" (s.group <> "|" <> format_nat s.idx) refl) e)
group_named self_update name e = cc
group_named method name e = cc
group_named restart name e = cc
group_named stop name e = cc

server_named :
    {action label : String}
    → IsAsked action label
    → (rest : String) → cut_prefix "delete-server|" action ≡ some rest
    → (shown : String) × (l : LinkEntry) × (action
        ≡ "delete-server|" <> shown <> "|" <> format_nat l.idx)
      × (label ≡ "Delete server '" <> link_name l <> "'?")
      × (rest ≡ shown <> "|" <> format_nat l.idx)
unfolding cut_prefix differ
server_named (group g) rest e =
    absurd (other (cut_prefix-differ "delete-server|" "delete-group-" g refl) e)
server_named (server g l) rest e =
    (g, l, refl, refl, some-injective rest _ (sym e ∙ cut_prefix-append "delete-server|" _))
server_named (sub s) rest e = absurd (
    other
      (cut_prefix-differ "delete-server|" "delete-sub|" (s.group <> "|" <> format_nat s.idx) refl)
      e)
server_named self_update rest e = cc
server_named method rest e = cc
server_named restart rest e = cc
server_named stop rest e = cc

sub_named :
    {action label : String}
    → IsAsked action label
    → (rest : String) → cut_prefix "delete-sub|" action ≡ some rest
    → (shown : String) × (n : ℕ) × (action ≡ "delete-sub|" <> shown <> "|" <> format_nat n)
      × (label ≡ "Delete subscription from '" <> shown <> "'?")
      × (rest ≡ shown <> "|" <> format_nat n)
unfolding cut_prefix differ
sub_named (group g) rest e =
    absurd (other (cut_prefix-differ "delete-sub|" "delete-group-" g refl) e)
sub_named (server g l) rest e =
    absurd (
      other (cut_prefix-differ "delete-sub|" "delete-server|" (g <> "|" <> format_nat l.idx) refl)
        e)
sub_named (sub s) rest e =
    (s.group, s.idx, refl, refl, some-injective rest _ (sym e ∙ cut_prefix-append "delete-sub|" _))
sub_named self_update rest e = cc
sub_named method rest e = cc
sub_named restart rest e = cc
sub_named stop rest e = cc

-- a removal is from the group that it was called for
abbrev IsFrom : String → ℤ → Option (Result String Written) → Type 0
IsFrom g i none = Unit
IsFrom g i (some (err e)) = Unit
IsFrom g i (some (ok w)) = w ≡ sub_removed g i

remove_at-IsFrom :
    (env : Surroundings) (g : String) (urls : List String) (i : ℤ)
    → IsFrom g i (remove_at env g urls i)
unfolding remove_at
remove_at-IsFrom env g urls (negsuc i) = tt
remove_at-IsFrom env g urls (pos i) = elim (Bool-cases (leb (length urls) i)) [
  | inl e ↦ rw (e, remove_at) tt
  | inr e ↦
      rw (e, remove_at)
        (elim (Option-cases (env.write_error g)) [ inl f ↦ rw f refl | inr (t, f) ↦ rw f tt ])
]

remove_sub-IsFrom : (env : Surroundings) (g : String) (i : ℤ) → IsFrom g i (remove_sub env g i)
unfolding remove_sub
remove_sub-IsFrom env g i = elim (Option-cases (env.subs_of g)) [
  | inl e ↦ rw (e, remove_sub) tt
  | inr (urls, e) ↦ rw (e, remove_sub) (remove_at-IsFrom env g urls i)
]

-- what is cut of a name and a number that are written with a bar between them
cut-IsRead :
    (shown : String) (n : ℕ) (p : String × String)
    → cut_first b'|' (shown <> "|" <> format_nat n) ≡ some p
    → IsRead shown n p.0 (atoi p.1)
cut-IsRead shown n p at = elim (Bool-cases (contains b'|' shown)) [
  | inl bar ↦ barred p.0 (atoi p.1) bar
  | inr clean ↦
      subst (λ (q : String × String). IsRead shown n q.0 (atoi q.1))
        (some-injective _ p (sym (cut_first-name shown (format_nat n) clean) ∙ at))
        (elim (Nat-cases n) [
          | inl fits ↦ subst (IsRead shown n shown) (sym (atoi-format_nat n fits)) as_written
          | inr large ↦ too_large (atoi (format_nat n)) large
        ])
]

remove_sub-some : (env : Surroundings) (g : String) (i : ℕ) → remove_sub env g (pos i) ≢ none
unfolding remove_sub remove_at
remove_sub-some env g i e = ground (arith, e)

-- behind `Yes` the dialog is closed
module _ (env : Surroundings) (m : Model) (h : IsSound m) (label : String) (C : Type 0) where
  abbrev Told : Option Stepped → Type 0
  Told = Fine C (Says m.confirm_action label)

  left-IsIndex :
      (gs : List String) → IsIndex gs (if ltb m.active_group (length gs) then m.active_group else 0)
  left-IsIndex [] = ground arith
  left-IsIndex (g ∷ gs) = ground arith

  removed-Says :
      (b : Bool) (name : String)
      → m.confirm_action ≡ "delete-group-" <> name
      → label ≡ "Delete group '" <> name <> "' and all its links?"
      → (n : Model) → IsSound n
      → Says m.confirm_action label (record {
        model = n;
        job = Job.idle;
        written = if b then group_removed name else nothing;
      })
  removed-Says true name act e n sound = says sound (the_group name tt act e)
  removed-Says false name act e n sound = quiet sound tt

  confirm_group-Fine :
      (name : String)
      → m.confirm_mode ≡ false
      → m.confirm_action ≡ "delete-group-" <> name
      → label ≡ "Delete group '" <> name <> "' and all its links?"
      → Told (confirm_group env name m)
  unfolding confirm_group
  confirm_group-Fine name shut act e =
      let left : IsIndex (find_groups (without_file (name <> ".json") env)) (
          if ltb m.active_group (length (find_groups (without_file (name <> ".json") env)))
          then m.active_group
          else 0) =
        left-IsIndex (find_groups (without_file (name <> ".json") env)) in
      steps (removed-Says env.removes name act e _ (left, λ o. cc))

  confirm_server-Fine :
      (shown : String) (l : LinkEntry)
      → m.confirm_action ≡ "delete-server|" <> shown <> "|" <> format_nat l.idx
      → label ≡ "Delete server '" <> link_name l <> "'?"
      → Told (confirm_server (shown <> "|" <> format_nat l.idx) m)
  unfolding confirm_server
  confirm_server-Fine shown l act e =
      Option-case Told (cut_first b'|' (shown <> "|" <> format_nat l.idx)) _ _
        (λ _. steps (quiet h tt))
        (λ p at.
          steps (says h (the_server shown p.0 l (atoi p.1) act e (cut-IsRead shown l.idx p at))))

  show_removal-Fine :
      (shown : String) (n : ℕ)
      → m.confirm_action ≡ "delete-sub|" <> shown <> "|" <> format_nat n
      → label ≡ "Delete subscription from '" <> shown <> "'?"
      → (g : String) (i : ℤ) → IsRead shown n g i
      → (r : Result String Written) → IsFrom g i (some r)
      → Told (show_removal g m r)
  unfolding show_removal
  show_removal-Fine shown n act e g i read (err f) from = steps (quiet h tt)
  show_removal-Fine shown n act e g i read (ok w) is = steps (
      says h (
        subst (Names m.confirm_action label Job.idle) (sym is) (the_sub shown g n i tt act e read)))

  confirm_sub-Fine :
      (shown : String) (n : ℕ)
      → m.confirm_action ≡ "delete-sub|" <> shown <> "|" <> format_nat n
      → label ≡ "Delete subscription from '" <> shown <> "'?"
      → Told (confirm_sub env (shown <> "|" <> format_nat n) m)
  unfolding confirm_sub
  confirm_sub-Fine shown n act e =
      Option-case Told (cut_first b'|' (shown <> "|" <> format_nat n)) _ _ (λ _. steps (quiet h tt))
        (λ p at.
          let (i, number) = atoi-cut_first-pos shown n p at in
          Option-case Told (remove_sub env p.0 (atoi p.1)) _ _
            (λ f. absurd (remove_sub-some env p.0 i (sym (ap (remove_sub env p.0) number) ∙ f)))
            (λ r is.
              show_removal-Fine shown n act e p.0 (atoi p.1) (cut-IsRead shown n p at) r
                (subst (IsFrom p.0 (atoi p.1)) is (remove_sub-IsFrom env p.0 (atoi p.1)))))

  pub confirmed-Fine :
      m.confirm_mode ≡ false → IsAsked m.confirm_action label → Told (confirmed env m)
  unfolding confirmed
  confirmed-Fine shut asked =
      if-branch Told (m.confirm_action == "do-update-ask-method") _ _
        (steps (quiet (h.0, λ _. method) tt))
        (if-branch Told (m.confirm_action == "do-update-method") _ _ (steps (quiet h tt)) (
          if-branch Told (m.confirm_action == "do-update") _ _ (steps (quiet h tt)) (
            Option-case Told (cut_prefix "delete-group-" m.confirm_action) _ _
              (λ _.
                Option-case Told (cut_prefix "delete-server|" m.confirm_action) _ _
                  (λ _.
                    Option-case Told (cut_prefix "delete-sub|" m.confirm_action) _ _
                      (λ _.
                        if-branch Told (m.confirm_action == "restart-gateway") _ _
                          (steps (quiet h tt))
                          (if-branch Told (m.confirm_action == "stop-gateway") _ _
                            (steps (quiet h tt)) (steps (quiet h tt))))
                      (λ rest e.
                        let (shown, n, act, said, same) = sub_named asked rest e in
                        subst (λ t. Told (confirm_sub env t m)) (sym same)
                          (confirm_sub-Fine shown n act said)))
                  (λ rest e.
                    let (shown, l, act, said, same) = server_named asked rest e in
                    subst (λ t. Told (confirm_server t m)) (sym same)
                      (confirm_server-Fine shown l act said)))
              (λ name e.
                let (act, said) = group_named asked name e in
                confirm_group-Fine name shut act said))))
