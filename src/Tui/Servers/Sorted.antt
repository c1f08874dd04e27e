-- ===== src/Tui/Servers/Sorted.antt =====
-- internal/tui/tui.go: `getSortedBenchResults`. `sort.SliceStable` is the stable sort by insertion.
use bypath.Base.{pos, Bool, true, false, not, ◌&&◌, if◌then◌else◌, List, [], ◌∷◌}
use bypath.Base.Int.{ltb_ℤ}
use bypath.Tui.{BenchEntry, Model}

-- whether the relay and the ping of an entry worked
unfoldable pub relayed : BenchEntry → Bool
relayed e = ltb_ℤ (pos 0) e.relay

unfoldable pub pinged : BenchEntry → Bool
pinged e = ltb_ℤ (pos 0) e.ping

-- the comparison: whether an entry comes before another one
unfoldable pub entry_less : Bool → BenchEntry → BenchEntry → Bool
unfolding relayed pinged
entry_less asc a b =
    let by_relay = if asc then ltb_ℤ a.relay b.relay else ltb_ℤ b.relay a.relay in
    let by_ping = if asc then ltb_ℤ a.ping b.ping else ltb_ℤ b.ping a.ping in
    if relayed a && relayed b
    then by_relay
    else if relayed a
    then true
    else if relayed b
    then false
    else if pinged a && not (pinged b)
    then true
    else if pinged b && not (pinged a)
    then false
    else by_ping

unfoldable pub insert_entry : Bool → BenchEntry → List BenchEntry → List BenchEntry
unfolding entry_less
insert_entry asc x [] = x ∷ []
insert_entry asc x (y ∷ ys) =
    let later = insert_entry asc x ys in if entry_less asc y x then y ∷ later else x ∷ y ∷ ys

unfoldable pub sort_entries : Bool → List BenchEntry → List BenchEntry
unfolding insert_entry
sort_entries asc [] = []
sort_entries asc (x ∷ xs) = insert_entry asc x (sort_entries asc xs)

-- `getSortedBenchResults`
unfoldable pub sorted_results : Model → List BenchEntry
unfolding sort_entries
sorted_results m = sort_entries m.bench_sort_asc m.bench_results
