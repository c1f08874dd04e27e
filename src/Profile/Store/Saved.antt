-- ===== src/Profile/Store/Saved.antt =====
-- The directory of files as a copy of the groups: what a restart reads back.
use mathlib.Core.Option
use bypath.Base.{
  ◌≢◌, String, string_eq, true, false, [], ◌∷◌, Option, none, some, ◌≡◌, refl, sym, subst, ap, ap₂,
  ◌∙◌, arith, eq_iff, ◌==◌, Dict, lookup, lookup-insert, All, HasDistinctKeys, lookup_absent,
  Bool-cases, Option-cases, inl, inr, if◌then◌else◌,
}
use bypath.Profile.{Group}
use bypath.Profile.Store.{Manager, loaded, load_entry, load_entries, new_manager}
use bypath.Profile.Store.Dir.{Content, unmarshal, persisted, file_name, is_json_name}
use bypath.Profile.Store.Names.{file_name_injective, is_json_name-file_name}

-- the group that the file of a name holds
abbrev pub read_file : String → Dict Content → Option Group
read_file name files = elim (lookup (file_name name) files) [ none ↦ none | some c ↦ unmarshal c ]

-- A file that would be loaded is the file of the group that it holds.
abbrev pub IsNamed : String × Content → Type 0
IsNamed e = (g : Group) → unmarshal e.1 ≡ some g → is_json_name e.0 ≡ true → e.0 ≡ file_name g.name

-- The files hold exactly the groups of the manager, each in its own file.
pub record IsSaved (m : Manager) : Type 0 where
  pub distinct : HasDistinctKeys m.directory
  pub named : All IsNamed m.directory
  pub saved : (k : String) → read_file k m.directory ≡ Option.map persisted (lookup k m.groups)

-- what a load adds to the groups
abbrev over : Option Group → Option Group → Option Group
over none old = old
over (some g) old = some (loaded g)

if_ne {ℓ} : {A : Type ℓ} (x y : A) (a b : String) → a ≢ b → (if a == b then x else y) ≡ y
if_ne x y a b h = ground (arith, eq_iff a b)

load_entry-other :
    (k name : String) (c : Content) (groups : Dict Group)
    → IsNamed (name, c)
    → name ≢ file_name k
    → lookup k (load_entry name c groups) ≡ lookup k groups
unfolding load_entry
load_entry-other k name c groups ok other = elim (Option-cases (unmarshal c)) [
  | inl bad ↦ rw (bad, load_entry)
  | inr (g, good) ↦ elim (Bool-cases (is_json_name name)) [
    | inl is_json ↦
        rw (good, load_entry)
          (rw (is_json, load_entry)
            (rw lookup-insert
              (if_ne _ _ g.name k (λ e. other (ok g good is_json ∙ ap file_name e)))))
    | inr not_json ↦ rw (good, load_entry) (rw (not_json, load_entry))
  ]
]

load_entry_self :
    (k name : String) (c : Content) (groups : Dict Group)
    → IsNamed (name, c)
    → name ≡ file_name k
    → lookup k (load_entry name c groups) ≡ over (unmarshal c) (lookup k groups)
unfolding load_entry
load_entry_self k name c groups ok here = elim (Option-cases (unmarshal c)) [
  | inl bad ↦ rw (bad, load_entry)
  | inr (g, good) ↦
      let is_json = ap is_json_name here ∙ is_json_name-file_name k in
      let same = file_name_injective g.name k (sym (ok g good is_json) ∙ here) in
      rw (good, load_entry)
        (rw (is_json, load_entry) (rw lookup-insert (rw ((eq_iff g.name k).1 same))))
]

read_file-head :
    (k name : String) (c : Content) (entries : Dict Content)
    → (name == file_name k) ≡ true
    → read_file k ((name, c) ∷ entries) ≡ unmarshal c
unfolding lookup
read_file-head k name c entries same = rw (same, lookup, read_file)

read_file-tail :
    (k name : String) (c : Content) (entries : Dict Content)
    → (name == file_name k) ≡ false
    → read_file k ((name, c) ∷ entries) ≡ read_file k entries
unfolding lookup
read_file-tail k name c entries other = rw (other, lookup, read_file)

read_file_absent :
    (k : String) (entries : Dict Content)
    → All (λ e. e.0 ≢ file_name k) entries
    → read_file k entries ≡ none
read_file_absent k entries new = rw (lookup_absent (file_name k) entries new, read_file)

ne_of_false : (a b : String) → (a == b) ≡ false → a ≢ b
ne_of_false a b h e = cc (sym h ∙ (eq_iff a b).1 e)

-- Loading finds, for each name, the group in the file of that name.
lookup-load_entries :
    (k : String) (entries : Dict Content) (groups : Dict Group)
    → HasDistinctKeys entries
    → All IsNamed entries
    → lookup k (load_entries entries groups) ≡ over (read_file k entries) (lookup k groups)
unfolding load_entries
lookup-load_entries k [] groups _ _ = unfold lookup in refl
lookup-load_entries k ((name, c) ∷ entries) groups (new, d) (ok, oks) =
    lookup-load_entries k entries (load_entry name c groups) d oks
    ∙ elim (Bool-cases (name == file_name k)) [
      | inl same ↦
          let here = (eq_iff name (file_name k)).0 same in
          let gone =
            read_file_absent k entries (subst (λ n. All (λ e. e.0 ≢ n) entries) here new) in
          ap (λ r. over r (lookup k (load_entry name c groups))) gone
          ∙ load_entry_self k name c groups ok here
          ∙ ap (λ r. over r (lookup k groups)) (sym (read_file-head k name c entries same))
      | inr other ↦
          ap₂ over (sym (read_file-tail k name c entries other))
            (load_entry-other k name c groups ok (ne_of_false name (file_name k) other))
    ]

over-map :
    (o : Option Group)
    → over (Option.map persisted o) none ≡ Option.map (λ g. loaded (persisted g)) o
over-map none = refl
over-map (some g) = refl

-- A restart reads back every group of the manager as it was saved, and no other: the fields that
-- are written are the same, and the CDN marks are computed anew.
pub lookup-new_manager :
    (m : Manager) (active_group k : String)
    → IsSaved m
    → lookup k (new_manager m.directory active_group).groups
      ≡ Option.map (λ g. loaded (persisted g)) (lookup k m.groups)
unfolding new_manager lookup
lookup-new_manager m active_group k s =
    lookup-load_entries k m.directory [] s.distinct s.named
    ∙ ap (λ r. over r none) (s.saved k)
    ∙ over-map (lookup k m.groups)
