-- ===== src/Profile/Store/Sync.antt =====
-- Writes that succeed keep the files a copy of the groups.
use mathlib.Core.Option
use mathlib.Core.Option.{some-injective, none-ne-some}
use bypath.Base.{
  String, string_eq, true, false, Option, none, some, ◌≡◌, sym, subst, ap, ◌∙◌, arith, eq_iff, ◌==◌,
  Dict, lookup, insert, delete, lookup-insert, lookup-delete, All-insert, All-delete,
  HasDistinctKeys-insert, HasDistinctKeys-delete, Bool-cases, Option-cases, inl, inr, if◌then◌else◌,
}
use bypath.Profile.{Link, Group}
use bypath.Profile.Store.{Manager, put_group, save_to, delete_group, set_active_link}
use bypath.Profile.Store.Dir.{
  Content, json, text, Write, written, refused, torn, unmarshal, persisted, file_name,
}
use bypath.Profile.Store.Names.{file_name-eq, file_name-ne-active, active_not_json}
use bypath.Profile.Store.Shape.{IsKeyed, found-IsOwned}
use bypath.Profile.Store.Effect.{Effect, unchanged, put, resaved}
use bypath.Profile.Store.Saved.{read_file, IsNamed, IsSaved}

-- the file of a name after one file is written, and after one is removed
read_file-insert :
    (k name : String) (c : Content) (files : Dict Content)
    → read_file k (insert (file_name name) c files)
      ≡ (if name == k then unmarshal c else read_file k files)
read_file-insert k name c files = elim (Bool-cases (name == k)) [
  | inl here ↦ rw (lookup-insert, read_file) (rw file_name-eq (rw here))
  | inr other ↦ rw (lookup-insert, read_file) (rw file_name-eq (rw other))
]

read_file-delete :
    (k name : String) (files : Dict Content)
    → read_file k (delete (file_name name) files) ≡ (if name == k then none else read_file k files)
read_file-delete k name files = elim (Bool-cases (name == k)) [
  | inl here ↦ rw (lookup-delete, read_file) (rw file_name-eq (rw here))
  | inr other ↦ rw (lookup-delete, read_file) (rw file_name-eq (rw other))
]

IsNamed-json : (g : Group) → IsNamed (file_name g.name, json g)
unfolding unmarshal persisted
IsNamed-json g g' e _ = ap (λ (x : Group). file_name x.name) (some-injective (persisted g) g' e)

put_reads :
    (k name : String) (g : Group) (m : Manager)
    → g.name ≡ name
    → read_file k m.directory ≡ Option.map persisted (lookup k m.groups)
    → (if g.name == k then unmarshal (json g) else read_file k m.directory)
      ≡ Option.map persisted (lookup k (insert name g m.groups))
unfolding unmarshal
put_reads k name g m named old = elim (Bool-cases (name == k)) [
  | inl here ↦ rw (lookup-insert) (rw named (rw here))
  | inr other ↦ rw (lookup-insert) (rw named (rw other old))
]

-- a directory that copied the groups stays their copy when a group is put and saved
put_group-IsSaved :
    (name : String) (g : Group) (m : Manager)
    → g.name ≡ name
    → IsSaved m
    → IsSaved (put_group written name g m).0
unfolding save_to
put_group-IsSaved name g m named s = record {
  distinct = HasDistinctKeys-insert (file_name g.name) (json g) m.directory s.distinct;
  named = All-insert IsNamed (file_name g.name) (json g) m.directory s.named (IsNamed-json g);
  saved =
      λ k. read_file-insert k g.name (json g) m.directory ∙ put_reads k name g m named (s.saved k);
}

resave_reads :
    (k name : String) (g : Group) (m : Manager)
    → lookup name m.groups ≡ some g
    → g.name ≡ name
    → read_file k m.directory ≡ Option.map persisted (lookup k m.groups)
    → (if g.name == k then unmarshal (json g) else read_file k m.directory)
      ≡ Option.map persisted (lookup k m.groups)
unfolding unmarshal
resave_reads k name g m found named old = elim (Bool-cases (g.name == k)) [
  | inl here ↦
      let at_k =
        subst (λ n. lookup n m.groups ≡ some g) (sym named ∙ (eq_iff g.name k).0 here) found in
      rw here (rw at_k)
  | inr other ↦ rw (other) old
]

drop_reads :
    (k name : String) (m : Manager)
    → read_file k m.directory ≡ Option.map persisted (lookup k m.groups)
    → (if name == k then none else read_file k m.directory)
      ≡ Option.map persisted (lookup k (delete name m.groups))
drop_reads k name m old = elim (Bool-cases (name == k)) [
  | inl here ↦ rw lookup-delete (rw here)
  | inr other ↦ rw lookup-delete (rw other old)
]

save_to-IsSaved :
    (name : String) (g : Group) (m : Manager)
    → lookup name m.groups ≡ some g
    → g.name ≡ name
    → IsSaved m
    → IsSaved (save_to written g m).0
unfolding save_to
save_to-IsSaved name g m found named s = record {
  distinct = HasDistinctKeys-insert (file_name g.name) (json g) m.directory s.distinct;
  named = All-insert IsNamed (file_name g.name) (json g) m.directory s.named (IsNamed-json g);
  saved = λ k.
      read_file-insert k g.name (json g) m.directory
      ∙ resave_reads k name g m found named (s.saved k);
}

pub Effect-IsSaved :
    {name : String} {m m' : Manager} → Effect written name m m' → IsKeyed m → IsSaved m → IsSaved m'
Effect-IsSaved unchanged k s = s
Effect-IsSaved {name} {m} (put g o) k s = put_group-IsSaved name g m o.0 s
Effect-IsSaved {name} {m} (resaved g found) k s =
    save_to-IsSaved name g m found (found-IsOwned name m found k).0 s

pub delete_group-IsSaved :
    (name : String) (m : Manager) → IsSaved m → IsSaved (delete_group true name m).0
unfolding delete_group
delete_group-IsSaved name m s = elim (Option-cases (lookup name m.groups)) [
  | inl missing ↦ rw (missing, delete_group) s
  | inr (g, found) ↦ elim (Option-cases (lookup (file_name name) m.directory)) [
    | inl no_file ↦
        let gone : read_file name m.directory ≡ none = rw (no_file, read_file) in
        let kept : Option.map persisted (lookup name m.groups) ≡ some (persisted g) = rw found in
        absurd (none-ne-some (persisted g) (sym gone ∙ s.saved name ∙ kept))
    | inr (c, file) ↦
        rw (found, delete_group)
          (rw (file, delete_group)
            (record {
              distinct = HasDistinctKeys-delete (file_name name) m.directory s.distinct;
              named = All-delete IsNamed (file_name name) m.directory s.named;
              saved = λ k. read_file-delete k name m.directory ∙ drop_reads k name m (s.saved k);
            }))
  ]
]

active-eq-file_name : (k : String) → (".active" == file_name k) ≡ false
active-eq-file_name k = ground (arith, eq_iff ".active" (file_name k), file_name-ne-active k)

read_file_active :
    (k : String) (c : Content) (files : Dict Content)
    → read_file k (insert ".active" c files) ≡ read_file k files
read_file_active k c files = rw (lookup-insert, read_file) (rw (active-eq-file_name k))

-- a write to `.active` touches no group's file
active_write-IsSaved :
    (link : Option Link) (c : Content) (m : Manager)
    → IsSaved m
    → IsSaved (record m { active_link = link; directory = insert ".active" c m.directory })
active_write-IsSaved link c m s = record {
  distinct = HasDistinctKeys-insert ".active" c m.directory s.distinct;
  named =
      All-insert IsNamed ".active" c m.directory s.named
        (λ g _ is_json. cc (sym is_json ∙ active_not_json));
  saved = λ k. read_file_active k c m.directory ∙ s.saved k;
}

pub set_active_link-IsSaved :
    (w : Write) (link : Link) (m : Manager) → IsSaved m → IsSaved (set_active_link w link m)
unfolding set_active_link
set_active_link-IsSaved written link m s = active_write-IsSaved (some link) _ m s
set_active_link-IsSaved refused link m s = record {
  distinct = s.distinct;
  named = s.named;
  saved = s.saved;
}
set_active_link-IsSaved (torn part) link m s = active_write-IsSaved (some link) (text part) m s
