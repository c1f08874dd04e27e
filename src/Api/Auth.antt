-- ===== src/Api/Auth.antt =====
-- internal/api/auth.go: the check of the token.
use Prim.Native.Char.{code}
use Prim.Native.String.{[], ◌∷◌}
use bypath.Base.{
  sym, ℕ, ◌+◌, String, string_eq, nat_eq, Bool, true, false, ◌&&◌, none, some, subst, ap, ◌∙◌, ◌≡◌,
  ◌≢◌, ◌↔◌, inl, inr, refl, if◌then◌else◌, ◌==◌, leb, cut_first, Bool-cases, Option-cases, eq_iff,
  arith,
}

-- the headers that the check reads
pub record Request : Type 0 where
  pub authorization : String
  pub api_key : String

-- the next handler runs, or the answer is 401 with a text
pub data Answer : Type 0 where
  served : Answer
  unauthorized : String → Answer

-- a letter in lower case, as `strings.EqualFold` compares it for the letters of "Bearer"
abbrev lower : ℕ → ℕ
lower c = if leb b'A' c && leb c b'Z' then c + 32 else c

unfoldable pub equal_fold : String → String → Bool
equal_fold [] [] = true
equal_fold [] (d ∷ t) = false
equal_fold (c ∷ s) [] = false
equal_fold (c ∷ s) (d ∷ t) = lower (code c) == lower (code d) && equal_fold s t

-- `secureCompare`
abbrev pub secure_compare : String → String → Bool
secure_compare a b = a == b

abbrev checked : Bool → Answer
checked passed = if passed then served else unauthorized "invalid authentication token"

-- without the header Authorization: the header X-API-Key is the token
abbrev by_key : String → String → Answer
by_key token key =
    if key == ""
    then unauthorized "missing authentication token"
    else checked (secure_compare key token)

-- with it: the scheme and the token
abbrev by_scheme : String → String → Answer
by_scheme token header = elim (cut_first b' ' header) [
  | none ↦ unauthorized "invalid authorization header format"
  | some (scheme, credentials) ↦
      if equal_fold scheme "Bearer"
      then checked (secure_compare credentials token)
      else unauthorized "invalid authorization header format"
]

-- `Middleware`
unfoldable pub middleware : String → Request → Answer
middleware token r =
    if token == ""
    then served
    else if r.authorization == ""
    then by_key token r.api_key
    else by_scheme token r.authorization

-- A request that shows the token, in one of the two headers.
pub data Shows (token : String) (r : Request) : Type 0 where
  unprotected : token ≡ "" → Shows token r
  key : r.authorization ≡ "" → r.api_key ≡ token → Shows token r
  bearer :
      (scheme : String)
      → r.authorization ≢ ""
      → cut_first b' ' r.authorization ≡ some (scheme, token)
      → equal_fold scheme "Bearer" ≡ true
      → Shows token r

answer_ne : {text : String} → unauthorized text ≡ served → ⊥
answer_ne e = subst (elim [ served ↦ ⊥ | unauthorized t ↦ Unit ]) e tt

by_key-Shows :
    (token : String) (r : Request)
    → r.authorization ≡ ""
    → by_key token r.api_key ≡ served
    → Shows token r
by_key-Shows token r none_set h = elim (Bool-cases (r.api_key == "")) [
  | inl e ↦ absurd (answer_ne (rw e at h))
  | inr e ↦ elim (Bool-cases (r.api_key == token)) [
    | inl f ↦ key none_set ((eq_iff r.api_key token).0 f)
    | inr f ↦ absurd (answer_ne (rw (e, f) at h))
  ]
]

by_scheme-Shows :
    (token : String) (r : Request)
    → r.authorization ≢ ""
    → by_scheme token r.authorization ≡ served
    → Shows token r
by_scheme-Shows token r set h = elim (Option-cases (cut_first b' ' r.authorization)) [
  | inl e ↦ absurd (answer_ne (rw (e, by_scheme) at h))
  | inr ((scheme, credentials), e) ↦ elim (Bool-cases (equal_fold scheme "Bearer")) [
    | inr f ↦ absurd (answer_ne (rw (e, f, by_scheme) at h))
    | inl f ↦ elim (Bool-cases (credentials == token)) [
      | inl g ↦
          bearer scheme set (e ∙ ap (λ t. some (scheme, t)) ((eq_iff credentials token).0 g)) f
      | inr g ↦ absurd (answer_ne (rw (e, f, g, by_scheme) at h))
    ]
  ]
]

middleware-Shows : (token : String) (r : Request) → middleware token r ≡ served → Shows token r
unfolding middleware
middleware-Shows token r h = elim (Bool-cases (token == "")) [
  | inl e ↦ unprotected ((eq_iff token "").0 e)
  | inr e ↦ elim (Bool-cases (r.authorization == "")) [
    | inl f ↦ by_key-Shows token r ((eq_iff r.authorization "").0 f) (rw (e, f) at h)
    | inr f ↦
        by_scheme-Shows token r (λ same. ground (arith, f, same, eq_iff r.authorization ""))
          (rw (e, f) at h)
  ]
]

not_empty : (s : String) → s ≢ "" → (s == "") ≡ false
not_empty s h = ground (arith, eq_iff s "")

by_key_served : (token : String) → (token == "") ≡ false → by_key token token ≡ served
by_key_served token e = rw e (rw ((eq_iff token token).1 refl) refl)

served_if-Shows :
    (token : String) (r : Request)
    → (token == "") ≡ false
    → Shows token r
    → middleware token r ≡ served
unfolding middleware
served_if-Shows token r e (unprotected empty) = ground (arith, e, empty, eq_iff token "")
served_if-Shows token r e (key none_set same) = rw e (
    rw ((eq_iff r.authorization "").1 none_set)
      (subst (λ k. by_key token k ≡ served) (sym same) (by_key_served token e)))
served_if-Shows token r e (bearer scheme set cut fold) = rw e (
    rw (not_empty r.authorization set)
      (rw (cut, by_scheme) (rw fold (rw ((eq_iff token token).1 refl) refl))))

-- A request is served exactly if no token is configured, or it shows the token: in X-API-Key where
-- Authorization is empty, or else behind the first space of Authorization, after a scheme that is
-- "Bearer" in any case.
pub middleware_iff : (token : String) (r : Request) → (middleware token r ≡ served) ↔ Shows token r
unfolding middleware
middleware_iff token r = (
  middleware-Shows token r,
  λ shows. elim (Bool-cases (token == "")) [
    | inl e ↦ rw e refl
    | inr e ↦ served_if-Shows token r e shows
  ],
)
