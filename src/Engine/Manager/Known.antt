-- ===== src/Engine/Manager/Known.antt =====
-- What the engine manager knows: where its binaries are from, and that it keeps them.
use bypath.Base.{
  String, string_eq, true, false, ◌==◌, List, [], ◌∷◌, Option, none, some, lookup, lookup-insert,
  Dict, Result, ok, err, ◌≡◌, refl, sym, ap, ◌∙◌, inl, inr, Bool-cases, Option-cases, Result-cases,
  All, All-map, Some, any, All-insert, lookup-All, eq_iff, Post, of_Post,
}
use bypath.Config.{EnginesConfig}
use bypath.Engine.Manager.{
  Binary, EngineManager, Machine, EngineError, get_download_url, binary_path, download, in_path,
  in_directory, resolve, first_found, supported, with_engine, detect, init, kept, get, join_path,
}

-- the names of an engine's binaries
unfoldable pub binaries_of : String → List String
binaries_of name = elim (lookup name (("ssh", "ssh" ∷ []) ∷ supported)) [
  | some bins ↦ bins
  | none ↦ []
]

abbrev pub IsBinary : String → String → Type 0
IsBinary name bin = any (λ b. b == bin) (binaries_of name) ≡ true

-- Where a binary is from, given what the system said at each call so far: one of the engine's names
-- was in PATH, or a file in the directory of the engines, or the engine was downloaded, and the binary
-- existed where its archive puts it.
pub data IsFrom (machines : List Machine) (directory name : String) : Binary → Type 0 where
  of_path :
      {path : String} (machine : Machine) (bin : String)
      → Some (λ x. x ≡ machine) machines
      → IsBinary name bin
      → machine.look_path bin ≡ some path
      → IsFrom machines directory name (record { name = name; path = path; source = "system" })
  of_directory :
      (machine : Machine) (bin : String)
      → Some (λ x. x ≡ machine) machines
      → IsBinary name bin
      → machine.is_file (join_path directory bin) ≡ true
      → IsFrom machines directory name
          (record { name = name; path = join_path directory bin; source = "local" })
  of_download :
      (machine : Machine) (url dest_name : String)
      → Some (λ x. x ≡ machine) machines
      → get_download_url machine name ≡ ok (url, dest_name)
      → machine.downloads url (join_path directory dest_name) ≡ true
      → machine.exists (binary_path machine directory name dest_name) ≡ true
      → IsFrom machines directory name (record {
        name = name;
        path = binary_path machine directory name dest_name;
        source = "downloaded";
      })

-- each engine stands under its name
abbrev pub Known : List Machine → EngineManager → Type 0
Known machines m =
    All (λ (e : String × Binary). IsFrom machines m.config.directory e.0 e.1) m.engines

abbrev Maybe : (machines : List Machine) (directory name : String) → Option Binary → Type 0
Maybe machines directory name none = Unit
Maybe machines directory name (some b) = IsFrom machines directory name b

IsFrom-more :
    (machine : Machine) {machines : List Machine} {directory name : String} {b : Binary}
    → IsFrom machines directory name b
    → IsFrom (machine ∷ machines) directory name b
IsFrom-more machine (of_path x bin among is found) = of_path x bin (inr among) is found
IsFrom-more machine (of_directory x bin among is found) = of_directory x bin (inr among) is found
IsFrom-more machine (of_download x url dest among at down there) =
    of_download x url dest (inr among) at down there

Known-more :
    (machine : Machine) (machines : List Machine) (m : EngineManager)
    → Known machines m
    → Known (machine ∷ machines) m
Known-more machine machines m = All-map (λ e. IsFrom-more machine) m.engines

module _ (machine : Machine) (machines : List Machine) (config : EnginesConfig)
    (name : String) where
  abbrev Here : Option Binary → Type 0
  Here = Maybe (machine ∷ machines) config.directory name

  in_path-IsFrom :
      (bins : List String) → All (IsBinary name) bins → Here (in_path machine name bins)
  unfolding in_path
  in_path-IsFrom [] is = tt
  in_path-IsFrom (bin ∷ bins) (is, more) = elim (Option-cases (machine.look_path bin)) [
    | inl e ↦ rw (e, in_path) (in_path-IsFrom bins more)
    | inr (path, e) ↦ rw (e, in_path) (of_path machine bin (inl refl) is e)
  ]

  in_directory-IsFrom :
      (bins : List String)
      → All (IsBinary name) bins
      → Here (in_directory machine config.directory name bins)
  unfolding in_directory
  in_directory-IsFrom [] is = tt
  in_directory-IsFrom (bin ∷ bins) (is, more) =
      elim (Bool-cases (machine.is_file (join_path config.directory bin))) [
        | inl e ↦ rw (e, in_directory) (of_directory machine bin (inl refl) is e)
        | inr e ↦ rw (e, in_directory) (in_directory-IsFrom bins more)
      ]

  first_found-IsFrom : (o p : Option Binary) → Here o → Here p → Here (first_found o p)
  first_found-IsFrom none p h k = k
  first_found-IsFrom (some b) p h k = h

  resolve-IsFrom :
      (bins : List String) → All (IsBinary name) bins → Here (resolve machine config name bins)
  unfolding resolve
  resolve-IsFrom bins is =
      let system = in_path-IsFrom bins is in
      let own = in_directory-IsFrom bins is in
      elim (Bool-cases config.prefer_system) [
        | inl e ↦ rw (e, resolve) (first_found-IsFrom _ _ system own)
        | inr e ↦ rw (e, resolve) (first_found-IsFrom _ _ own system)
      ]

  download-IsFrom :
      Post (IsFrom (machine ∷ machines) config.directory name) (download machine config name)
  unfolding download
  download-IsFrom = elim (Result-cases (get_download_url machine name)) [
    | inr (failure, e) ↦ rw e tt
    | inl ((url, dest), e) ↦
        elim (Bool-cases (machine.downloads url (join_path config.directory dest))) [
          | inr d ↦ rw (e, d) tt
          | inl d ↦
              elim (Bool-cases (machine.exists (binary_path machine config.directory name dest))) [
                | inr x ↦ rw (e, d, x) tt
                | inl x ↦ rw (e, d, x) (of_download machine url dest (inl refl) e d x)
              ]
        ]
  ]

with_engine-Known :
    (machines : List Machine) (o : Option Binary) (name : String) (m : EngineManager)
    → Maybe machines m.config.directory name o
    → Known machines m
    → Known machines (with_engine o name m)
with_engine-Known machines none name m h known = known
with_engine-Known machines (some b) name m h known = All-insert _ name b m.engines known h

detect-Known :
    (machine : Machine) (machines : List Machine) (names : Dict (List String)) (m : EngineManager)
    → All (λ (e : String × List String). All (IsBinary e.0) e.1) names
    → Known (machine ∷ machines) m
    → Known (machine ∷ machines) (detect machine names m)
unfolding detect
detect-Known machine machines [] m is known = known
detect-Known machine machines ((name, bins) ∷ names) m (is, more) known =
    detect-Known machine machines names _ more
      (with_engine-Known _ _ name m (resolve-IsFrom machine machines m.config name bins is) known)

supported-IsBinary : All (λ (e : String × List String). All (IsBinary e.0) e.1) supported
unfolding binaries_of lookup
supported-IsBinary = (
  (refl, (refl, tt)),
  ((refl, (refl, tt)), ((refl, (refl, (refl, tt))), ((refl, (refl, tt)), tt))),
)

ssh-IsBinary : IsBinary "ssh" "ssh"
unfolding binaries_of lookup
ssh-IsBinary = refl

init-Known :
    (machine : Machine) (m : EngineManager)
    → Known (machine ∷ []) m
    → Known (machine ∷ []) (init machine m)
unfolding init
init-Known machine m known =
    let detected = detect-Known machine [] supported m supported-IsBinary known in
    elim (Option-cases (machine.look_path "ssh")) [
      | inl e ↦ rw (e, init) detected
      | inr (path, e) ↦
          rw (e, init)
            (with_engine-Known (machine ∷ [])
              (some (record { name = "ssh"; path = path; source = "system" })) "ssh"
              (detect machine supported m) (of_path machine "ssh" (inl refl) ssh-IsBinary e)
              detected)
    ]

get-Known :
    (machine : Machine) (machines : List Machine) (name : String) (m : EngineManager)
    → Known machines m
    → Known (machine ∷ machines) (get machine name m).0
unfolding get kept
get-Known machine machines name m known = elim (Option-cases (lookup name m.engines)) [
  | inr (b, e) ↦ rw (e, get) (Known-more machine machines m known)
  | inl e ↦ elim (Result-cases (download machine m.config name)) [
    | inr (failure, f) ↦ rw (e, f, get) (Known-more machine machines m known)
    | inl (b, f) ↦
        rw (e, f, get)
          (All-insert _ name b m.engines (Known-more machine machines m known) (
            of_Post _ (download machine m.config name)
              (download-IsFrom machine machines m.config name) f))
  ]
]

-- `Init` and then the calls of `Get`, with what the system says at each, the last first
pub data Reached (config : EnginesConfig) : List Machine → EngineManager → Type 0 where
  initial :
      (machine : Machine)
      → Reached config
          (machine ∷ [])
          (init machine (record { config = config; engines = []; ssh_pass_available = false }))
  got :
      (machine : Machine) (name : String) {machines : List Machine} {m : EngineManager}
      → Reached config machines m
      → Reached config (machine ∷ machines) (get machine name m).0

pub Reached-Known :
    {config : EnginesConfig} {machines : List Machine} {m : EngineManager}
    → Reached config machines m
    → Known machines m
Reached-Known (initial machine) = init-Known machine _ tt
Reached-Known (got machine name {machines} {m} before) =
    get-Known machine machines name m (Reached-Known before)

-- the calls of `Get` behind another one
pub data Later (m : EngineManager) : EngineManager → Type 0 where
  directly : Later m m
  behind :
      (machine : Machine) (name : String) {n : EngineManager}
      → Later m n
      → Later m (get machine name n).0

Later-found :
    (name : String) {b : Binary} {m n : EngineManager}
    → Later m n
    → lookup name m.engines ≡ some b
    → lookup name n.engines ≡ some b
unfolding get kept
Later-found name directly e = e
Later-found name {b} (behind machine other {n} before) e =
    let found : lookup name n.engines ≡ some b = Later-found name before e in
    elim (Option-cases (lookup other n.engines)) [
      | inr (c, f) ↦ rw (f, get) found
      | inl f ↦ elim (Result-cases (download machine n.config other)) [
        | inr (failure, g) ↦ rw (f, g, get) found
        | inl (c, g) ↦
            rw (f, g, get)
              (lookup-insert other name c n.engines ∙ elim (Bool-cases (other == name)) [
                | inr h ↦ rw h found
                | inl h ↦
                    let same = (eq_iff other name).0 h in
                    let clash : none ≡ some b = sym f ∙ ap (λ k. lookup k n.engines) same ∙ found in
                    cc
              ])
      ]
    ]

-- how `Get` ends
data Got (name : String) : EngineManager × Result EngineError Binary → Type 0 where
  has : {m : EngineManager} {b : Binary} → lookup name m.engines ≡ some b → Got name (m, ok b)
  missing : {m : EngineManager} {e : EngineError} → Got name (m, err e)

get-Got : (machine : Machine) (name : String) (m : EngineManager) → Got name (get machine name m)
unfolding get kept
get-Got machine name m = elim (Option-cases (lookup name m.engines)) [
  | inr (c, f) ↦ rw (f, get) (has f)
  | inl f ↦ elim (Result-cases (download machine m.config name)) [
    | inr (failure, g) ↦ rw (f, g, get) missing
    | inl (c, g) ↦
        rw (f, g, get)
          (has (lookup-insert name name c m.engines ∙ rw ((eq_iff name name).1 refl) refl))
  ]
]

Got-found :
    {name : String} {b : Binary} {r : EngineManager × Result EngineError Binary}
    → Got name r
    → r.1 ≡ ok b
    → lookup name r.0.engines ≡ some b
Got-found (has f) e = cc
Got-found missing e = cc

-- Behind `Init` and any calls of `Get`, an engine that `Get` returns bears the name that was asked for,
-- and at one of these calls, this one included, one of its binary's names was in PATH, or was a file in
-- the directory of the engines, or the engine's archive was downloaded and its binary existed beside
-- it: that is its path. And it is kept: any later `Get` of the name returns the same, whatever other
-- calls come between, and whatever the system says then.
pub get-get :
    {config : EnginesConfig} {machines : List Machine} {m k : EngineManager} {b : Binary}
    (machine again : Machine) (name : String)
    → Reached config machines m
    → (get machine name m).1 ≡ ok b
    → Later (get machine name m).0 k
    → IsFrom (machine ∷ machines) (get machine name m).0.config.directory name b
      × (get again name k ≡ (k, ok b))
unfolding get
get-get {machines = machines} {m = m} {k = k} machine again name reached up later =
    let now = Got-found (get-Got machine name m) up in
    let known = get-Known machine machines name m (Reached-Known reached) in
    (
      lookup-All _ name (get machine name m).0.engines now known,
      rw (Later-found name later now, get) refl,
    )
