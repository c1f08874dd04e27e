-- ===== src/Gateway/Hosts/Lines.antt =====
-- The lines of /etc/hosts that a pin and an unpin keep.
use text.Mathlib.TextLemmas as Text
use bypath.Base.{
  String, string_eq, Bool, true, false, not, List, [], ◌∷◌, ◌++◌, ◌≡◌, refl, sym, ap, ◌∙◌, All,
  All-append, select, join, split, contains, contains_text, ◌<>◌, whole_lines, whole_lines-append,
  ends_in-whole_lines, split-join, contains_text-append, Bool-cases, inl, inr, arith,
  contains-append, append-nil,
}
use bypath.Gateway.Hosts.{newline, marker, is_pin_of, pin_line, pinned, unpinned}

abbrev pub IsLine : String → Type 0
IsLine line = contains b'\n' line ≡ false

abbrev pub unmarked : List String → List String
unmarked = select (λ line. not (contains_text line marker))

abbrev pub unpinned_of : String → List String → List String
unpinned_of hostname = select (λ line. not (is_pin_of hostname line))

select-append :
    (p : String → Bool) (xs ys : List String) → select p (xs ++ ys) ≡ select p xs ++ select p ys
unfolding select
select-append p [] ys = refl
select-append p (x ∷ xs) ys = ground (arith, select-append p xs ys)

split-lines :
    (x : String) (xs : List String)
    → All IsLine (x ∷ xs)
    → split b'\n' (whole_lines newline (x ∷ xs)) ≡ (x ∷ xs) ++ ("" ∷ [])
unfolding contains
split-lines x xs (h, rest) =
    split-join newline x (xs ++ ("" ∷ [])) (h, All-append IsLine xs ("" ∷ []) rest (refl, tt))

-- The lines that a loop over the lines of a file keeps.
select-lines :
    (p : String → Bool) (first : String) (rest : List String)
    → All IsLine (first ∷ rest)
    → p first ≡ true
    → p "" ≡ true
    → join newline (select p (split b'\n' (whole_lines newline (first ∷ rest))))
      ≡ whole_lines newline (first ∷ select p rest)
unfolding select
select-lines p first rest lines kept last =
    ap (λ ls. join newline (select p ls)) (split-lines first rest lines)
    ∙ ap (join newline) (select-append p (first ∷ rest) ("" ∷ []) ∙ rw kept (rw last refl))

pub pinned-lines :
    (ip hostname first : String) (rest : List String)
    → All IsLine (first ∷ rest)
    → is_pin_of hostname first ≡ false
    → pinned ip hostname (whole_lines newline (first ∷ rest))
      ≡ whole_lines newline ((first ∷ unpinned_of hostname rest) ++ (pin_line ip hostname ∷ []))
unfolding pinned contains_text
pinned-lines ip hostname first rest lines kept =
    let content = whole_lines newline (first ∷ unpinned_of hostname rest) in
    rw (select-lines (λ line. not (is_pin_of hostname line)) first rest lines (ap not kept) refl) (
      rw (ends_in-whole_lines newline first (unpinned_of hostname rest))
        (whole_lines-append newline (first ∷ unpinned_of hostname rest) (pin_line ip hostname)))

pub unpinned-lines :
    (first : String) (rest : List String)
    → All IsLine (first ∷ rest)
    → contains_text first marker ≡ false
    → unpinned (whole_lines newline (first ∷ rest)) ≡ whole_lines newline (first ∷ unmarked rest)
unfolding unpinned contains_text
unpinned-lines first rest lines kept =
    select-lines (λ line. not (contains_text line marker)) first rest lines (ap not kept) refl

-- the line of a pin, as `contains_text-append` reads it
pin_line-marked : (ip hostname : String) → contains_text (pin_line ip hostname) marker ≡ true
pin_line-marked ip hostname =
    ap (λ t. contains_text t marker)
      (sym (
        Text.append_assoc ip (" " <> (hostname <> " ")) marker
        ∙ ap (λ t. ip <> t)
            (Text.append_assoc " " (hostname <> " ") marker
              ∙ ap (λ t. " " <> t) (Text.append_assoc hostname " " marker))))
    ∙ contains_text-append (ip <> (" " <> (hostname <> " "))) marker ""

pin_line-IsLine :
    (ip hostname : String) → IsLine ip → IsLine hostname → IsLine (pin_line ip hostname)
unfolding contains
pin_line-IsLine ip hostname a b =
    rw (contains-append b'\n' ip (" " <> (hostname <> (" " <> marker)))) (
      rw a (
        rw (contains-append b'\n' " " (hostname <> (" " <> marker)))
          (rw (contains-append b'\n' hostname (" " <> marker)) (rw b refl))))

All-select :
    (P : String → Type 0) (p : String → Bool) (xs : List String) → All P xs → All P (select p xs)
unfolding select
All-select P p [] h = tt
All-select P p (x ∷ xs) (h, hs) = elim (Bool-cases (p x)) [
  | inl e ↦ rw e (h, All-select P p xs hs)
  | inr e ↦ rw e (All-select P p xs hs)
]

unmarked-unpinned :
    (hostname : String) (xs : List String) → unmarked (unpinned_of hostname xs) ≡ unmarked xs
unfolding select
unmarked-unpinned hostname [] = refl
unmarked-unpinned hostname (x ∷ xs) = ground (arith, unmarked-unpinned hostname xs)

select_none : (line : String) → contains_text line marker ≡ true → unmarked (line ∷ []) ≡ []
unfolding select
select_none line h = rw h refl

pub unpinned-pinned :
    (ip hostname first : String) (rest : List String)
    → IsLine ip
    → IsLine hostname
    → All IsLine (first ∷ rest)
    → contains_text first marker ≡ false
    → unpinned
        (whole_lines newline ((first ∷ unpinned_of hostname rest) ++ (pin_line ip hostname ∷ [])))
      ≡ whole_lines newline (first ∷ unmarked rest)
unpinned-pinned ip hostname first rest a b lines kept =
    let others = unpinned_of hostname rest in
    let line = pin_line ip hostname in
    unpinned-lines first (others ++ (line ∷ []))
      (
        lines.0,
        All-append IsLine others (line ∷ []) (All-select IsLine _ rest lines.1)
            (pin_line-IsLine ip hostname a b, tt),
      )
      kept
    ∙ ap (λ ls. whole_lines newline (first ∷ ls))
        (select-append (λ l. not (contains_text l marker)) others (line ∷ [])
          ∙ ap (λ ls. unmarked others ++ ls) (select_none line (pin_line-marked ip hostname))
          ∙ append-nil (unmarked others)
          ∙ unmarked-unpinned hostname rest)
