-- ===== src/Tui/Servers/Order.antt =====
-- That the results of a bench are sorted: none is lost, and none stands behind one that it comes before.
use bypath.Base.{suc, Bool, List, [], ◌∷◌, ◌≡◌, refl, ap, ◌∙◌, inl, inr, Bool-cases, length}
use bypath.Tui.{BenchEntry, Model}
use bypath.Tui.Servers.Sorted.{entry_less, insert_entry, sort_entries, sorted_results}

length-insert_entry :
    (asc : Bool) (x : BenchEntry) (ys : List BenchEntry)
    → length (insert_entry asc x ys) ≡ suc (length ys)
unfolding insert_entry
length-insert_entry asc x [] = refl
length-insert_entry asc x (y ∷ ys) = elim (Bool-cases (entry_less asc y x)) [
  | inl e ↦ rw e (ap suc (length-insert_entry asc x ys))
  | inr e ↦ rw e refl
]

length-sort_entries : (asc : Bool) (xs : List BenchEntry) → length (sort_entries asc xs) ≡ length xs
unfolding sort_entries
length-sort_entries asc [] = refl
length-sort_entries asc (x ∷ xs) =
    length-insert_entry asc x (sort_entries asc xs) ∙ ap suc (length-sort_entries asc xs)

pub length-sorted_results : (m : Model) → length (sorted_results m) ≡ length m.bench_results
unfolding sorted_results
length-sorted_results m = length-sort_entries m.bench_sort_asc m.bench_results
