-- ===== src/Tunnel/Json.antt =====
-- The values that internal/tunnel/configgen.go builds: `map[string]interface{}`, by which an engine's
-- configuration is written. A map has at most one entry of a key; encoding sorts the keys.
use bypath.Base.{
  ℤ, String, string_eq, Bool, true, false, Option, none, some, List, [], ◌∷◌, ◌==◌, ◌≡◌, refl, inl,
  inr, if◌then◌else◌, arith, eq_iff, ap, sym, ◌∙◌, ◌||◌, Bool-cases,
}

mutual
  -- a text, an int, a bool, a `[]string`, a map, a list of maps, or a `[]interface{}`
  pub data Value : Type 0 where
    text : String → Value
    number : ℤ → Value
    flag : Bool → Value
    texts : List String → Value
    object : Object → Value
    array : Objects → Value
    mixed : Values → Value

  pub data Object : Type 0 where
    empty : Object
    entry : String → Value → Object → Object

  pub data Objects : Type 0 where
    no_more : Objects
    another : Object → Objects → Objects

  pub data Values : Type 0 where
    no_values : Values
    one : Value → Values → Values

-- `m[key]`
unfoldable pub get : String → Object → Option Value
get key empty = none
get key (entry name val rest) = if name == key then some val else get key rest

-- `m[key] = new`
unfoldable pub put : String → Value → Object → Object
put key new empty = entry key new empty
put key new (entry name val rest) =
    let kept = put key new rest in if name == key then entry key new rest else entry name val kept

-- `delete(m, key)`
unfoldable pub remove : String → Object → Object
remove key empty = empty
remove key (entry name val rest) =
    let kept = remove key rest in if name == key then kept else entry name val kept

-- `if cond { m[key] = new }`
unfoldable pub put_if : Bool → String → Value → Object → Object
unfolding put
put_if true key new m = put key new m
put_if false key new m = m

-- a map literal
unfoldable pub object_of : List (String × Value) → Object
object_of [] = empty
object_of ((key, val) ∷ rest) = entry key val (object_of rest)

-- a `[]map[string]interface{}` as a value, and back
abbrev pub list_of : Objects → List Object
list_of no_more = []
list_of (another m ms) = m ∷ list_of ms

abbrev pub objects_of : List Object → Objects
objects_of [] = no_more
objects_of (m ∷ ms) = another m (objects_of ms)

pub list_of-objects_of : (ms : List Object) → list_of (objects_of ms) ≡ ms
list_of-objects_of [] = refl
list_of-objects_of (m ∷ ms) = ap (λ xs. m ∷ xs) (list_of-objects_of ms)

abbrev pub array_of : List Object → Value
array_of ms = array (objects_of ms)

-- the maps and the texts that a key holds
abbrev pub objects_at : String → Object → List Object
objects_at key m = elim (get key m) [ some (array ms) ↦ list_of ms | _ ↦ [] ]

abbrev pub texts_at : String → Object → List String
texts_at key m = elim (get key m) [ some (texts ss) ↦ ss | _ ↦ [] ]

-- a `[]interface{}`
abbrev pub mixed_of : List Value → Values
mixed_of [] = no_values
mixed_of (v ∷ vs) = one v (mixed_of vs)

pub get-put :
    (at key : String) (new : Value) (m : Object)
    → get key (put at new m) ≡ (if at == key then some new else get key m)
unfolding get put
get-put at key new empty = refl
get-put at key new (entry name val rest) =
    ground (arith, get-put at key new rest, eq_iff name at, eq_iff name key, eq_iff at key)

pub get-remove :
    (at key : String) (m : Object) → get key (remove at m) ≡ (if at == key then none else get key m)
unfolding get remove
get-remove at key empty = ground arith
get-remove at key (entry name val rest) =
    ground (arith, get-remove at key rest, eq_iff name at, eq_iff name key, eq_iff at key)

-- a map without an entry of the key
abbrev pub Lacks : String → Object → Type 0
Lacks key m = get key m ≡ none

abbrev pub names_key : String → List (String × Value) → Bool
names_key key [] = false
names_key key ((name, val) ∷ rest) = name == key || names_key key rest

module _ (key : String) where
  pub put-Lacks :
      (at : String) (new : Value) (m : Object)
      → (at == key) ≡ false
      → Lacks key m
      → Lacks key (put at new m)
  put-Lacks at new m other h = rw (get-put at key new m, other) h

  pub put_if-Lacks :
      (b : Bool) (at : String) (new : Value) (m : Object)
      → (at == key) ≡ false
      → Lacks key m
      → Lacks key (put_if b at new m)
  unfolding put_if
  put_if-Lacks true at new m other h = put-Lacks at new m other h
  put_if-Lacks false at new m other h = h

  pub object_of-Lacks :
      (fields : List (String × Value)) → names_key key fields ≡ false → Lacks key (object_of fields)
  unfolding get object_of
  object_of-Lacks [] h = refl
  object_of-Lacks ((name, val) ∷ rest) h = elim (Bool-cases (name == key)) [
    | inl e ↦ ground (arith, h, e)
    | inr e ↦ rw e (object_of-Lacks rest (sym (ap (λ b. b || names_key key rest) e) ∙ h))
  ]

-- a Go `switch` on a text: the first case of that text, or the default
unfoldable pub switch {ℓ} : {A : Type ℓ} → String → List (String × A) → A → A
switch s [] default = default
switch s ((name, a) ∷ rest) default =
    let other = switch s rest default in if s == name then a else other

pub switch-case {ℓ κ} :
    {A : Type ℓ} (P : A → Type κ) (s name : String) (a : A) (rest : List (String × A)) (default : A)
    → P a
    → P (switch s rest default)
    → P (switch s ((name, a) ∷ rest) default)
unfolding switch
switch-case P s name a rest default p other = elim (Bool-cases (s == name)) [
  | inl e ↦ rw e p
  | inr e ↦ rw e other
]

pub switch-default {ℓ κ} :
    {A : Type ℓ} (P : A → Type κ) (s : String) (default : A) → P default → P (switch s [] default)
unfolding switch
switch-default P s default p = p
