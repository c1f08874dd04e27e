-- ===== src/Gateway/Children/Killed.antt =====
-- Which processes are killed.
use Prim.Native.Char.{code}
use Prim.Native.String.{[], ◌∷◌}
use mathlib.Core.List.{[], ◌∷◌, map-append}
use text.Mathlib.TextLemmas as Text
use bypath.Base.{
  ℕ, ◌+◌, ◌*◌, ◌^◌, ◌<◌, String, string_eq, nat_eq, Bool, true, false, ◌&&◌, ◌==◌, if◌then◌else◌,
  List, ◌++◌, Option, none, some, ltb, ◌<>◌, split, join, whole_lines, whole_lines-append,
  split-join, contains, trim_space, trim_left, trim_right, is_space, format_nat, is_digit, IsDigits,
  StartsInDigit, format_nat-IsDigits, format_nat-StartsInDigit, digit, digit-code, cancel_zero,
  value-format_nat, All, All-mapped, select, map, ◌≡◌, refl, ap, sym, ◌∙◌, arith, cons-ne_empty,
  append-ne_empty, append-nil, append_assoc, trim_prefix, cut_prefix,
}
use bypath.Gateway.Children.{
  track_child_pid, kill_tracked_children, killed_in, killed_by, scan_pid, leading_value,
}
use bypath.Gateway.Hosts.{newline}

space_of_digit : (c : ℕ) → is_digit c ≡ true → is_space c ≡ false
unfolding is_digit is_space
space_of_digit c h = ground (arith, h)

newline_of_digit : (c : ℕ) → is_digit c ≡ true → (c == b'\n') ≡ false
unfolding is_digit
newline_of_digit c h = ground (arith, h)

trim_left-digit : (s : String) → StartsInDigit s → trim_left s ≡ s
unfolding trim_left
trim_left-digit [] h = absurd h
trim_left-digit (c ∷ s) h = rw (space_of_digit (code c) h) refl

trim_right-digits : (s : String) → IsDigits s → trim_right s ≡ s
unfolding trim_right
trim_right-digits [] h = refl
trim_right-digits (c ∷ s) (h, hs) =
    rw (space_of_digit (code c) h) (ap (λ t. c ∷ t) (trim_right-digits s hs))

kept_cons : (b : Bool) (s : String) → ◌≡◌ {A = String} (if b && false then "" else s) s
kept_cons true s = refl
kept_cons false s = refl

ne_empty_of_digit : (s : String) → StartsInDigit s → (s == "") ≡ false
ne_empty_of_digit [] h = absurd h
ne_empty_of_digit (c ∷ s) h = cons-ne_empty c s

trim_right-append :
    (s t : String) → (t == "") ≡ false → trim_right t ≡ t → trim_right (s <> t) ≡ s <> t
unfolding trim_right
trim_right-append [] t h e = ap trim_right (Text.nil-append t) ∙ e ∙ sym (Text.nil-append t)
trim_right-append (c ∷ s) t h e = rw (Text.cons-append c s t) (
    rw (trim_right-append s t h e, trim_right)
      (rw (append-ne_empty s t h) (kept_cons (is_space (code c)) (c ∷ (s <> t)))))

trim_right-newline : (s : String) → trim_right (s <> "\n") ≡ trim_right s
unfolding trim_right is_space
trim_right-newline [] = refl
trim_right-newline (c ∷ s) =
    rw (Text.cons-append c s "\n") (rw (trim_right-newline s, trim_right) refl)

-- A line of a printed number.
abbrev Printed : String → Type 0
Printed s = StartsInDigit s × IsDigits s

append-StartsInDigit : (s t : String) → StartsInDigit s → StartsInDigit (s <> t)
append-StartsInDigit [] t h = absurd h
append-StartsInDigit (c ∷ s) t h = rw (Text.cons-append c s t) h

join-StartsInDigit :
    (x : String) (xs : List String) → StartsInDigit x → StartsInDigit (join newline (x ∷ xs))
unfolding join
join-StartsInDigit x [] h = h
join-StartsInDigit [] (y ∷ xs) h = absurd h
join-StartsInDigit (c ∷ x) (y ∷ xs) h =
    rw (Text.cons-append c x (newline ∷ join newline (y ∷ xs))) h

trim_right-join :
    (x : String) (xs : List String)
    → All Printed (x ∷ xs)
    → trim_right (join newline (x ∷ xs)) ≡ join newline (x ∷ xs)
unfolding join trim_right
trim_right-join x [] (h, _) = trim_right-digits x h.1
trim_right-join x (y ∷ xs) (h, rest) =
    trim_right-append x (newline ∷ join newline (y ∷ xs)) (cons-ne_empty _ _) (
      rw (trim_right-join y xs rest, trim_right)
        (rw (ne_empty_of_digit _ (join-StartsInDigit y xs rest.0.0))
          (kept_cons (is_space b'\n') _)))

whole_lines-join :
    (x : String) (xs : List String) → whole_lines newline (x ∷ xs) ≡ join newline (x ∷ xs) <> "\n"
unfolding join
whole_lines-join x [] = refl
whole_lines-join x (y ∷ xs) =
    ap (λ t. x <> (newline ∷ t)) (whole_lines-join y xs)
    ∙ ap (λ t. x <> t) (sym (Text.cons-append newline (join newline (y ∷ xs)) "\n"))
    ∙ sym (Text.append_assoc x (newline ∷ join newline (y ∷ xs)) "\n")

trim_space-lines :
    (x : String) (xs : List String)
    → All Printed (x ∷ xs)
    → trim_space (whole_lines newline (x ∷ xs)) ≡ join newline (x ∷ xs)
unfolding trim_space
trim_space-lines x xs h =
    ap trim_space (whole_lines-join x xs)
    ∙ ap trim_right
        (trim_left-digit _ (append-StartsInDigit _ "\n" (join-StartsInDigit x xs h.0.0)))
    ∙ trim_right-newline (join newline (x ∷ xs))
    ∙ trim_right-join x xs h

trim_plus : (s : String) → StartsInDigit s → trim_prefix s "+" ≡ s
unfolding trim_prefix cut_prefix is_digit
trim_plus [] h = absurd h
trim_plus (c ∷ s) h = ground (arith, h)

leading_value-digit :
    (n d : ℕ) (s : String) → d < 10 → leading_value n (digit d ∷ s) ≡ leading_value (n * 10 + d) s
unfolding leading_value
leading_value-digit n d s h =
    rw (digit-code d h) (ground (arith, h, ap (λ k. leading_value (n * 10 + k) s) (cancel_zero d)))

scan_pid-format_nat : (pid : ℕ) → pid < 2 ^ 63 → scan_pid (format_nat pid) ≡ pid
unfolding scan_pid leading_value
scan_pid-format_nat pid h =
    rw (trim_plus (format_nat pid) (format_nat-StartsInDigit pid))
      (rw (value-format_nat leading_value leading_value-digit pid) (ground (arith, h)))

trim_space-digits : (s : String) → Printed s → trim_space s ≡ s
unfolding trim_space
trim_space-digits s (h, hs) = ap trim_right (trim_left-digit s h) ∙ trim_right-digits s hs

Printed-IsLine : (s : String) → IsDigits s → contains b'\n' s ≡ false
unfolding contains
Printed-IsLine [] h = refl
Printed-IsLine (c ∷ s) (h, hs) = rw (newline_of_digit (code c) h) (Printed-IsLine s hs)

-- a process that may be killed
abbrev is_own : ℕ → Bool
is_own pid = ltb 1 pid

killed_by-format_nat :
    (pid : ℕ) (rest : List ℕ)
    → pid < 2 ^ 63
    → killed_by (format_nat pid) rest ≡ (if is_own pid then pid ∷ rest else rest)
unfolding killed_by
killed_by-format_nat pid rest h =
    let starts = format_nat-StartsInDigit pid in
    rw (trim_space-digits (format_nat pid) (starts, format_nat-IsDigits pid)) (
      rw (ne_empty_of_digit (format_nat pid) starts)
        (rw (scan_pid-format_nat pid h) (ground arith)))

killed_in-lines :
    (pids : List ℕ)
    → All (λ pid. pid < 2 ^ 63) pids
    → killed_in (map format_nat pids) ≡ select is_own pids
unfolding killed_in select
killed_in-lines [] h = refl
killed_in-lines (pid ∷ pids) (h, hs) =
    killed_by-format_nat pid (killed_in (map format_nat pids)) h
    ∙ ap (λ r. if is_own pid then pid ∷ r else r) (killed_in-lines pids hs)

-- the file behind some starts
unfoldable tracked : Option String → List ℕ → Option String
tracked file [] = file
tracked file (pid ∷ pids) = tracked (track_child_pid pid file) pids

abbrev file_of : List ℕ → String
file_of pids = whole_lines newline (map format_nat pids)

tracked-file_of :
    (before pids : List ℕ) → tracked (some (file_of before)) pids ≡ some (file_of (before ++ pids))
unfolding tracked track_child_pid
tracked-file_of before [] = ap (λ l. some (file_of l)) (sym (append-nil before))
tracked-file_of before (pid ∷ pids) =
    ap (λ t. tracked (some t) pids)
      (whole_lines-append newline (map format_nat before) (format_nat pid)
        ∙ ap (λ l. whole_lines newline l) (sym (map-append format_nat before (pid ∷ []))))
    ∙ tracked-file_of (before ++ (pid ∷ [])) pids
    ∙ ap (λ l. some (file_of l)) (append_assoc before (pid ∷ []) pids)

abbrev no_file : Option String
no_file = none

killed-file_of :
    (pid : ℕ) (pids : List ℕ)
    → All (λ pid. pid < 2 ^ 63) (pid ∷ pids)
    → kill_tracked_children (some (file_of (pid ∷ pids))) ≡ (select is_own (pid ∷ pids), none)
unfolding kill_tracked_children
killed-file_of pid pids h =
    let printed = map format_nat pids in
    let lines : All (λ s. contains b'\n' s ≡ false) (format_nat pid ∷ printed) = (
      Printed-IsLine _ (format_nat-IsDigits pid),
      All-mapped (λ s. contains b'\n' s ≡ false) format_nat pids
          (λ n. Printed-IsLine _ (format_nat-IsDigits n)),
    ) in
    ap (λ s. (killed_in (split b'\n' s), no_file))
      (trim_space-lines (format_nat pid) printed (
        (format_nat-StartsInDigit pid, format_nat-IsDigits pid),
        All-mapped Printed format_nat pids
            (λ n. (format_nat-StartsInDigit n, format_nat-IsDigits n)),
      ))
    ∙ ap (λ ls. (killed_in ls, no_file)) (split-join newline (format_nat pid) printed lines)
    ∙ ap (λ ps. (ps, no_file)) (killed_in-lines (pid ∷ pids) h)

-- The processes that were tracked are killed, in the order of their starts, but for numbers below two,
-- and the file is removed, if each number fits an `int`.
kill_tracked_children-tracked :
    (pids : List ℕ)
    → All (λ pid. pid < 2 ^ 63) pids
    → kill_tracked_children (tracked none pids) ≡ (select is_own pids, none)
unfolding tracked track_child_pid join kill_tracked_children select
kill_tracked_children-tracked [] h = refl
kill_tracked_children-tracked (pid ∷ pids) h =
    ap kill_tracked_children (tracked-file_of [] (pid ∷ pids)) ∙ killed-file_of pid pids h
