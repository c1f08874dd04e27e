-- ===== src/Gateway/Reload/Changes.antt =====
-- That the tests of `Reload` find a change.
use bypath.Base.{
  int_eq, String, string_eq, nat_eq, HasEq, Bool, true, false, not, ◌||◌, ◌==◌, List, [], ◌∷◌,
  length, join, split, split-join, contains, All, All-map, subst, ap₂, ◌≡◌, ◌≢◌, ◌↔◌, refl, sym, ap,
  ◌∙◌, eq_iff, arith, Bool-cases, inl, inr, head-eq_of_cons-eq,
}
use bypath.Config.{LocalDnsEntry}
use bypath.Gateway.Reload.{comma, joins_differ, entries_changed, local_dns_changed, bool_differ}

-- a name or an address, as it stands in a list of the configuration
abbrev pub IsPlain : String → Type 0
IsPlain s = ((s == "") ≡ false) × (contains b',' s ≡ false)

lines_of :
    (x : String) (xs : List String)
    → All IsPlain (x ∷ xs)
    → split b',' (join comma (x ∷ xs)) ≡ x ∷ xs
lines_of x xs h = split-join comma x xs (All-map (λ s (p : IsPlain s). p.1) (x ∷ xs) h)

-- The text that joins plain texts is not empty.
joined : (x : String) (xs : List String) → All IsPlain (x ∷ xs) → join comma (x ∷ xs) ≢ ""
unfolding split
joined x xs h e =
    let same : x ≡ "" = head-eq_of_cons-eq (sym (lines_of x xs h) ∙ ap (split b',') e) in
    cc (sym h.0.0 ∙ (eq_iff x "").1 same)

-- Lists of plain texts are equal if the texts that join them are.
join-injective :
    (xs ys : List String)
    → All IsPlain xs
    → All IsPlain ys
    → join comma xs ≡ join comma ys
    → xs ≡ ys
unfolding join
join-injective [] [] hx hy e = refl
join-injective [] (y ∷ ys) hx hy e = absurd (joined y ys hy (sym e))
join-injective (x ∷ xs) [] hx hy e = absurd (joined x xs hx e)
join-injective (x ∷ xs) (y ∷ ys) hx hy e =
    sym (lines_of x xs hx) ∙ ap (split b',') e ∙ lines_of y ys hy

-- A test for a change that holds of any two values that differ.
iff_of_changed {ℓ} :
    {T : Type ℓ} (changed : T → T → Bool) (x y : T)
    → ((z : T) → changed z z ≡ false)
    → (changed x y ≡ false → x ≡ y)
    → (changed x y ≡ true) ↔ (x ≢ y)
iff_of_changed changed x y same equal = (
  λ c e. cc (sym (same y) ∙ subst (λ z. changed z y ≡ true) e c),
  λ n. elim (Bool-cases (changed x y)) [ inl c ↦ c | inr c ↦ absurd (n (equal c)) ],
)

not-injective : (b : Bool) → not b ≡ false → b ≡ true
not-injective true h = refl
not-injective false h = cc

pub differs_iff {ℓ} : {T : Type ℓ} ⦃eq : HasEq T⦄ → (x y : T) → (not (x == y) ≡ true) ↔ (x ≢ y)
differs_iff ⦃eq⦄ x y =
    iff_of_changed (λ a b. not (eq.test a b)) x y (λ z. ap not ((eq.test_iff z z).1 refl))
      (λ h. (eq.test_iff x y).0 (not-injective _ h))

pub bool_differ_iff : (x y : Bool) → (bool_differ x y ≡ true) ↔ (x ≢ y)
bool_differ_iff x y = iff_of_changed bool_differ x y same (equal x y)
  where
    same : (z : Bool) → bool_differ z z ≡ false
    same true = refl
    same false = refl

    equal : (a b : Bool) → bool_differ a b ≡ false → a ≡ b
    equal true true h = refl
    equal true false h = cc
    equal false true h = cc
    equal false false h = refl

pub joins_differ_iff :
    (xs ys : List String)
    → All IsPlain xs
    → All IsPlain ys
    → (joins_differ xs ys ≡ true) ↔ (xs ≢ ys)
joins_differ_iff xs ys hx hy =
    iff_of_changed joins_differ xs ys (λ z. ap not ((eq_iff (join comma z) (join comma z)).1 refl))
      (λ h. join-injective xs ys hx hy ((eq_iff _ _).0 (not-injective _ h)))

abbrev pub IsPlainEntry : LocalDnsEntry → Type 0
IsPlainEntry entry = All IsPlain entry.domains

entries_changed_refl : (xs : List LocalDnsEntry) → entries_changed xs xs ≡ false
unfolding entries_changed
entries_changed_refl [] = refl
entries_changed_refl (x ∷ xs) =
    rw ((eq_iff x.server x.server).1 refl)
      (rw ((eq_iff (join comma x.domains) (join comma x.domains)).1 refl) (entries_changed_refl xs))

or_false : (a b : Bool) → (a || b) ≡ false → (a ≡ false) × (b ≡ false)
or_false true b h = cc
or_false false b h = (refl, h)

entries_equal :
    (xs ys : List LocalDnsEntry)
    → All IsPlainEntry xs
    → All IsPlainEntry ys
    → length xs ≡ length ys
    → entries_changed xs ys ≡ false
    → xs ≡ ys
unfolding entries_changed
entries_equal [] [] hx hy n h = refl
entries_equal [] (y ∷ ys) hx hy n h = absurd (omega (arith, n))
entries_equal (x ∷ xs) [] hx hy n h = absurd (omega (arith, n))
entries_equal (x ∷ xs) (y ∷ ys) (px, hx) (py, hy) n h =
    let (first, others) = or_false _ _ h in
    let (servers, domains) = or_false _ _ first in
    let server : x.server ≡ y.server = (eq_iff _ _).0 (not-injective _ servers) in
    let same : x.domains ≡ y.domains =
      join-injective x.domains y.domains px py ((eq_iff _ _).0 (not-injective _ domains)) in
    ap₂ (λ (e : LocalDnsEntry) es. e ∷ es) (λ i. record { server = server i; domains = same i })
      (entries_equal xs ys hx hy (omega (arith, n)) others)

pub local_dns_changed_iff :
    (xs ys : List LocalDnsEntry)
    → All IsPlainEntry xs
    → All IsPlainEntry ys
    → (local_dns_changed xs ys ≡ true) ↔ (xs ≢ ys)
unfolding local_dns_changed
local_dns_changed_iff xs ys hx hy =
    iff_of_changed local_dns_changed xs ys
      (λ z. rw ((nat_eq.test_iff (length z) (length z)).1 refl) (entries_changed_refl z))
      (λ h. elim (Bool-cases (length xs == length ys)) [
        | inl e ↦
            entries_equal xs ys hx hy ((nat_eq.test_iff _ _).0 e) (rw (e, local_dns_changed) at h)
        | inr e ↦ cc (sym (rw (e, local_dns_changed) at h))
      ])
