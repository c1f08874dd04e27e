-- ===== src/Gateway/Children.antt =====
-- `trackChildPID` and `killTrackedChildren` of internal/gateway/gateway.go: the file of the processes
-- that the gateway has started. A file that is not there is none.
mod Killed
use Prim.Native.Char.{code}
use Prim.Native.String.{[], ◌∷◌}
use mathlib.Core.List.{[], ◌∷◌}
use bypath.Base.{
  ℕ, ◌+◌, ◌*◌, ◌-◌, ◌^◌, String, string_eq, nat_eq, Bool, true, false, ◌||◌, ◌==◌, if◌then◌else◌,
  List, Option, none, some, ltb, leb, ◌<>◌, split, trim_space, trim_prefix, format_nat, is_digit,
}

abbrev or_empty : Option String → String
or_empty none = ""
or_empty (some content) = content

-- `trackChildPID`, where the file can be opened
unfoldable pub track_child_pid : ℕ → Option String → Option String
track_child_pid pid file = some (or_empty file <> (format_nat pid <> "\n"))

-- the digits in front of a text, behind the value `n`
unfoldable pub leading_value : ℕ → String → ℕ
unfolding is_digit
leading_value n [] = n
leading_value n (c ∷ s) =
    let more = leading_value (n * 10 + (code c - b'0')) s in if is_digit (code c) then more else n

-- `fmt.Sscanf(line, "%d", &pid)` on a text with no space in front; a negative number, and one that an
-- `int` cannot hold, is 0, since the caller skips it
unfoldable pub scan_pid : String → ℕ
scan_pid line =
    let pid = leading_value 0 (trim_prefix line "+") in if ltb pid (2 ^ 63) then pid else 0

-- the body of the loop of `killTrackedChildren`, before the processes that the rest kills
unfoldable pub killed_by : String → List ℕ → List ℕ
killed_by line rest =
    let trimmed = trim_space line in
    let pid = scan_pid trimmed in
    if trimmed == "" then rest else if leb pid 1 then rest else pid ∷ rest

unfoldable pub killed_in : List String → List ℕ
killed_in [] = []
killed_in (line ∷ lines) = killed_by line (killed_in lines)

-- `killTrackedChildren`: the processes that it kills, in order, and the file that it leaves
unfoldable pub kill_tracked_children : Option String → List ℕ × Option String
kill_tracked_children none = ([], none)
kill_tracked_children (some text) = (killed_in (split b'\n' (trim_space text)), none)
