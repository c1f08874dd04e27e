-- ===== src/Geo/Available.antt =====
-- Which countries have their files behind a download.
use text.Mathlib.TextLemmas.{append_cancel_left, append_cancel_right}
use bypath.Base.{
  arith, ℕ, String, string_eq, Bool, true, false, not, ◌&&◌, ◌||◌, ◌==◌, ◌<>◌, if◌then◌else◌, List,
  [], ◌∷◌, Option, none, some, Dict, lookup, insert, lookup-insert, select, any, ◌≡◌, refl, sym, ap,
  ◌∙◌, inl, inr, Bool-cases, Option-cases, eq_iff,
}
use bypath.Geo.{
  Net, url_of, needs_update, download_to_file, download_each, geosite_name, geosite_files,
  in_directory, download_geosite_files, is_there, validate_geosite_files,
}

geosite_name-injective : (a b : String) → geosite_name a ≡ geosite_name b → a ≡ b
geosite_name-injective a b same =
    append_cancel_right a b ".srs" (append_cancel_left "geosite-" (a <> ".srs") (b <> ".srs") same)

same_name : (a b : String) → (geosite_name a == geosite_name b) ≡ (a == b)
same_name a b = elim (Bool-cases (a == b)) [
  | inl e ↦ rw e ((eq_iff (geosite_name a) (geosite_name b)).1 (ap geosite_name ((eq_iff a b).0 e)))
  | inr e ↦ elim (Bool-cases (geosite_name a == geosite_name b)) [
    | inr f ↦ rw (e, f) refl
    | inl f ↦
        let same : a ≡ b =
          geosite_name-injective a b ((eq_iff (geosite_name a) (geosite_name b)).0 f) in
        absurd (ground (arith, e, (eq_iff a b).1 same))
  ]
]

chosen :
    (b : Bool) (t : ℕ) (o : Option ℕ)
    → elim (if b then some t else o) [ none ↦ false | some _ ↦ true ]
      ≡ (b || elim o [ none ↦ false | some _ ↦ true ])
chosen true t o = refl
chosen false t o = refl

is_there-insert :
    (name other : String) (t : ℕ) (files : Dict ℕ)
    → is_there name (insert other t files) ≡ (other == name || is_there name files)
is_there-insert name other t files =
    ap (λ (o : Option ℕ). elim o [ none ↦ false | some _ ↦ true ])
      (lookup-insert other name t files)
    ∙ chosen (other == name) t (lookup name files)

module _ (net : Net) (template : String) (max_age : ℕ) where
  -- a file that needs no update is there
  fresh-there :
      (name : String) (files : Dict ℕ)
      → needs_update net.time max_age name files ≡ false
      → is_there name files ≡ true
  unfolding needs_update
  fresh-there name files e = elim (Option-cases (lookup name files)) [
    | inl f ↦ absurd (ground (arith, rw (f, needs_update) at e))
    | inr (t, f) ↦ rw (f, is_there) refl
  ]

  -- what the download of the file of one country adds
  step :
      (c other : String) (files : Dict ℕ)
      → is_there
          (geosite_name c)
          (download_to_file net (url_of template other) (geosite_name other) files)
        ≡ (is_there (geosite_name c) files || other == c && net.fetches (url_of template c))
  unfolding download_to_file
  step c other files = elim (Bool-cases (other == c)) [
    | inl e ↦
        let same : other ≡ c = (eq_iff other c).0 e in
        elim (Bool-cases (net.fetches (url_of template c))) [
          | inl f ↦
              let g : net.fetches (url_of template other) ≡ true =
                ap (λ d. net.fetches (url_of template d)) same ∙ f in
              rw (g, f, e)
                (is_there-insert (geosite_name c) (geosite_name other) net.time files
                  ∙ rw (same_name other c, e) (ground arith))
          | inr f ↦
              let g : net.fetches (url_of template other) ≡ false =
                ap (λ d. net.fetches (url_of template d)) same ∙ f in
              rw (g, f, e) (ground arith)
        ]
    | inr e ↦ elim (Bool-cases (net.fetches (url_of template other))) [
      | inl f ↦
          rw (f, e)
            (is_there-insert (geosite_name c) (geosite_name other) net.time files
              ∙ rw (same_name other c, e) (ground arith))
      | inr f ↦ rw (f, e) (ground arith)
    ]
  ]

  download_each-there :
      (c : String) (countries : List String) (files : Dict ℕ)
      → is_there
          (geosite_name c)
          (download_each net max_age (geosite_files template countries) files).0
        ≡ (is_there (geosite_name c) files
            || any (λ d. d == c) countries && net.fetches (url_of template c))
  unfolding download_each
  download_each-there c [] files = ground arith
  download_each-there c (d ∷ countries) files =
      let kept = download_each-there c countries files in
      let changed =
        download_each-there c countries
          (download_to_file net (url_of template d) (geosite_name d) files) in
      let added = step c d files in
      elim (Bool-cases (not (needs_update net.time max_age (geosite_name d) files))) [
        | inl u ↦
            let up_to_date = fresh-there (geosite_name d) files (ground (arith, u)) in
            rw (u, download_each)
              (elim (Bool-cases (d == c)) [
                | inr e ↦ ground (arith, kept, e)
                | inl e ↦
                    let there =
                      ap (λ x. is_there (geosite_name x) files) (sym ((eq_iff d c).0 e))
                      ∙ up_to_date in
                    ground (arith, kept, there)
              ])
        | inr u ↦ elim (Bool-cases (net.fetches (url_of template d))) [
          | inl f ↦ rw (u, f, download_each) (ground (arith, changed, added))
          | inr f ↦ rw (u, f, download_each) (ground (arith, changed, added))
        ]
      ]

select-same :
    (f g : String → Bool) (xs : List String)
    → ((x : String) → any (λ d. d == x) xs ≡ true → f x ≡ g x)
    → select f xs ≡ select g xs
unfolding select
select-same f g [] h = refl
select-same f g (x ∷ xs) h =
    let rest = select-same f g xs (λ y there. h y (ground (arith, there))) in
    let first : f x ≡ g x = h x (ground (arith, (eq_iff x x).1 refl)) in
    elim (Bool-cases (g x)) [
      | inl e ↦ rw (first ∙ e, e) (ap (λ ys. x ∷ ys) rest)
      | inr e ↦ rw (first ∙ e, e) rest
    ]

-- If the directory can be made, then behind a download exactly those countries are usable, in their order,
-- whose file was there before or whose address can be fetched: no file that is there is lost, also where
-- its update fails.
pub validate_geosite_files-download :
    (net : Net) (template : String) (max_age : ℕ) (countries : List String) (files : Dict ℕ)
    → net.makes_directory ≡ true
    → validate_geosite_files countries
        (download_geosite_files net template countries max_age files).0
      ≡ select (λ c. is_there (geosite_name c) files || net.fetches (url_of template c)) countries
unfolding validate_geosite_files download_geosite_files select
validate_geosite_files-download net template max_age [] files made = refl
validate_geosite_files-download net template max_age (c ∷ cs) files made =
    let done = download_each net max_age (geosite_files template (c ∷ cs)) files in
    let open_directory : in_directory net files done ≡ done =
      ap (λ b. if not b then (files, false) else done) made in
    ap (λ (r : Dict ℕ × Bool). validate_geosite_files (c ∷ cs) r.0) open_directory
    ∙ select-same (λ x. is_there (geosite_name x) done.0)
        (λ x. is_there (geosite_name x) files || net.fetches (url_of template x)) (c ∷ cs)
        (λ x is. download_each-there net template max_age x (c ∷ cs) files ∙ rw is refl)
