-- ===== src/Engine/Archive/Inside.antt =====
-- Where the files of an archive are written.
use Prim.Native.Char.{code}
use Prim.Native.String.{[], ◌∷◌}
use bypath.Base.{
  arith, ℕ, String, string_eq, nat_eq, Bool, false, not, ◌==◌, List, [], ◌∷◌, none, some, All, ◌≡◌,
  ◌⊎◌, refl, ◌∙◌, inl, inr, Bool-cases, split, split_from, contains, contains-append, has_prefix,
  ◌<>◌,
}
use bypath.Engine.Archive.{
  ArchiveEntry, last_element, base, is_no_binary, is_no_binary_of_zip, extract, extract_tar_gz,
  extract_zip,
}

-- The name of a file directly in the directory, if it is no directory itself: it has no slash or is the
-- root, and does not begin with a dot, so it is neither the directory nor the one above it.
abbrev pub IsInside : String → Type 0
IsInside name = ((contains b'/' name ≡ false) ⊎ (name ≡ "/")) × (has_prefix name "." ≡ false)

split_from-plain :
    (sep : ℕ) (s cur : String)
    → contains sep cur ≡ false
    → All (λ t. contains sep t ≡ false) (split_from sep cur s)
unfolding split_from contains
split_from-plain sep [] cur h = (h, tt)
split_from-plain sep (c ∷ s) cur h = elim (Bool-cases (code c == sep)) [
  | inl e ↦ rw e (h, split_from-plain sep s "" refl)
  | inr e ↦
      rw e (
        split_from-plain sep s (cur <> (c ∷ ""))
          (contains-append sep cur (c ∷ "") ∙ rw (h, e) refl))
]

last_element-plain :
    (ls : List String)
    → All (λ t. contains b'/' t ≡ false) ls
    → (last_element ls ≡ none)
      ⊎ ((t : String) × (last_element ls ≡ some t) × (contains b'/' t ≡ false))
unfolding last_element
last_element-plain [] h = inl refl
last_element-plain (s ∷ ls) (h, hs) = elim (last_element-plain ls hs) [
  | inr (t, e, plain) ↦ inr (t, rw e refl, plain)
  | inl e ↦ elim (Bool-cases (s == "")) [
    | inl empty ↦ inl (rw (e, empty, last_element) refl)
    | inr full ↦ inr (s, rw (e, full, last_element) refl, h)
  ]
]

base-plain : (path : String) → (contains b'/' (base path) ≡ false) ⊎ (base path ≡ "/")
unfolding base split contains
base-plain path = elim (Bool-cases (path == "")) [
  | inl e ↦ rw e (inl refl)
  | inr e ↦ rw e (elim (last_element-plain _ (split_from-plain b'/' path "" refl)) [
    | inl f ↦ rw f (inr refl)
    | inr (t, f, plain) ↦ rw f (inl plain)
  ])
]

module _ (skips : String → Bool) (writes : String → Bool)
    (hidden : (name : String) → skips name ≡ false → has_prefix name "." ≡ false) where
  extract-IsInside : (entries : List ArchiveEntry) → All IsInside (extract skips writes entries).0
  unfolding extract
  extract-IsInside [] = tt
  extract-IsInside (e ∷ entries) = elim (Bool-cases (not e.is_file)) [
    | inl f ↦ rw (f, extract) (extract-IsInside entries)
    | inr f ↦ elim (Bool-cases (skips (base e.name))) [
      | inl g ↦ rw (f, g, extract) (extract-IsInside entries)
      | inr g ↦
          let inside : IsInside (base e.name) = (base-plain e.name, hidden (base e.name) g) in
          elim (Bool-cases (not e.is_readable)) [
            | inl h ↦ rw (f, g, h, extract) tt
            | inr h ↦ elim (Bool-cases (not (writes (base e.name)))) [
              | inl k ↦ rw (f, g, h, k, extract) (inside, tt)
              | inr k ↦ rw (f, g, h, k, extract) (inside, extract-IsInside entries)
            ]
          ]
    ]
  ]

is_no_binary-visible : (name : String) → is_no_binary name ≡ false → has_prefix name "." ≡ false
unfolding is_no_binary
is_no_binary-visible name h = ground (arith, h)

zip-visible : (name : String) → is_no_binary_of_zip name ≡ false → has_prefix name "." ≡ false
unfolding is_no_binary_of_zip
zip-visible name h = is_no_binary-visible name (ground (arith, h))

-- Whatever the entries of an archive are called, each file that is written under it has a name without a
-- slash (or the root's, which is no file), and with no dot in front: it lies in the directory of the
-- engines, and is neither that directory nor the one above it.
pub extract_zip-IsInside :
    (writes : String → Bool) (entries : List ArchiveEntry)
    → All IsInside (extract_zip writes entries).0 × All IsInside (extract_tar_gz writes entries).0
unfolding extract_zip extract_tar_gz
extract_zip-IsInside writes entries = (
  extract-IsInside is_no_binary_of_zip writes zip-visible entries,
  extract-IsInside is_no_binary writes is_no_binary-visible entries,
)
