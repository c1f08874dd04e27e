-- ===== src/Profile/Store/Shape.antt =====
-- The shape of the manager's map of groups, and that each method of profile.go keeps it.
use bypath.Base.{
  true, false, String, Bool, List, [], ◌∷◌, map, Option, none, some, ◌≡◌, refl, arith, Dict, lookup,
  All, All-insert, All-delete, lookup-All, HasDistinctKeys, HasDistinctKeys-insert,
  HasDistinctKeys-delete, ◌⊎◌, inl, inr, delete, string_eq, subst, sym,
}
use bypath.Profile.{Link, Group, regroup}
use bypath.Profile.Cdn.{mark_cdn_detected}
use bypath.Profile.Store.{
  Manager, put_group, save_to, delete_group, set_active_link, loaded, load_entry, load_entries,
  new_manager,
}
use bypath.Profile.Store.Dir.{Content, Write, unmarshal, is_json_name}

-- The group has the name `name`, and so has every link of it as its group.
abbrev pub IsOwned : String → Group → Type 0
IsOwned name g = (g.name ≡ name) × All (λ l. l.group ≡ name) g.links

-- No name stands twice, and every group stands under its own name, with links that name it.
pub record IsKeyed (m : Manager) : Type 0 where
  pub distinct : HasDistinctKeys m.groups
  pub owned : All (λ e. IsOwned e.0 e.1) m.groups

pub put_group-IsKeyed :
    (w : Write) (name : String) (g : Group) (m : Manager)
    → IsOwned name g
    → IsKeyed m
    → IsKeyed (put_group w name g m).0
unfolding save_to
put_group-IsKeyed w name g m o k = record {
  distinct = HasDistinctKeys-insert name g m.groups k.distinct;
  owned = All-insert (λ e. IsOwned e.0 e.1) name g m.groups k.owned o;
}

pub save_to-IsKeyed : (w : Write) (g : Group) (m : Manager) → IsKeyed m → IsKeyed (save_to w g m).0
unfolding save_to
save_to-IsKeyed w g m k = record { distinct = k.distinct; owned = k.owned }

pub found-IsOwned :
    (name : String) {g : Group} (m : Manager)
    → lookup name m.groups ≡ some g
    → IsKeyed m
    → IsOwned name g
found-IsOwned name m e k = lookup-All (λ e. IsOwned e.0 e.1) name m.groups e k.owned

delete_group-groups :
    (removable : Bool) (name : String) (m : Manager)
    → ((delete_group removable name m).0 ≡ m)
      ⊎ ((delete_group removable name m).0.groups ≡ delete name m.groups)
unfolding delete_group
delete_group-groups removable name m = ground arith

pub delete_group-IsKeyed :
    (removable : Bool) (name : String) (m : Manager)
    → IsKeyed m
    → IsKeyed (delete_group removable name m).0
unfolding delete_group
delete_group-IsKeyed removable name m k =
    let distinct = HasDistinctKeys-delete name m.groups k.distinct in
    let owned = All-delete (λ e. IsOwned e.0 e.1) name m.groups k.owned in
    elim (delete_group-groups removable name m) [
      | inl same ↦ rw same k
      | inr less ↦ record {
        distinct = subst HasDistinctKeys (sym less) distinct;
        owned = subst (All (λ e. IsOwned e.0 e.1)) (sym less) owned;
      }
    ]

pub set_active_link-IsKeyed :
    (w : Write) (link : Link) (m : Manager) → IsKeyed m → IsKeyed (set_active_link w link m)
unfolding set_active_link
set_active_link-IsKeyed w link m k = record { distinct = k.distinct; owned = k.owned }

map-loaded :
    (name : String) (ls : List Link)
    → All (λ l. l.group ≡ name) (map (λ l. mark_cdn_detected (regroup name l)) ls)
unfolding mark_cdn_detected
map-loaded name [] = tt
map-loaded name (l ∷ ls) = (refl, map-loaded name ls)

-- What `loadAll` reads is keyed, whatever the files hold.
pub load_entries-IsKeyed :
    (entries : Dict Content) (groups : Dict Group)
    → HasDistinctKeys groups
    → All (λ e. IsOwned e.0 e.1) groups
    → HasDistinctKeys (load_entries entries groups)
      × All (λ e. IsOwned e.0 e.1) (load_entries entries groups)
unfolding load_entries loaded
load_entries-IsKeyed [] groups d o = (d, o)
load_entries-IsKeyed ((name, c) ∷ entries) groups d o =
    let (d', o') = step (unmarshal c) refl (is_json_name name) refl in
    load_entries-IsKeyed entries (load_entry name c groups) d' o'
  where
    step :
        (read : Option Group)
        → unmarshal c ≡ read
        → (is_json : Bool) → is_json_name name ≡ is_json
        → HasDistinctKeys (load_entry name c groups)
          × All (λ e. IsOwned e.0 e.1) (load_entry name c groups)
    step none bad b _ = rw (bad, load_entry) (d, o)
    step (some g) good false other = rw (good, load_entry) (rw (other, load_entry) (d, o))
    step (some g) good true is_json =
        rw (good, load_entry)
          (rw (is_json, load_entry)
            (
              HasDistinctKeys-insert g.name (loaded g) groups d,
              All-insert (λ e. IsOwned e.0 e.1) g.name (loaded g) groups o
                  (refl, map-loaded g.name g.links),
            ))

pub new_manager-IsKeyed :
    (entries : Dict Content) (active_group : String) → IsKeyed (new_manager entries active_group)
unfolding new_manager
new_manager-IsKeyed entries active_group =
    let (d, o) = load_entries-IsKeyed entries [] tt tt in record { distinct = d; owned = o }
