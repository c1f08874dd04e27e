-- ===== src/Profile/History.antt =====
-- The life of a profile `Manager`: it is loaded from its directory, and then its methods are called
-- in any order, with any outcome of the writes and of the fetches.
use mathlib.Core.Option
use bypath.Base.{ℤ, String, Bool, true, not, contains, List, [], Option, ◌≡◌, refl, Dict, lookup}
use bypath.Profile.{Link}
use bypath.Profile.Store.{
  Manager, add_link, remove_link, create_group, delete_group, save_group, set_active_link, loaded,
  new_manager,
}
use bypath.Profile.Store.Dir.{Content, Write, written, persisted}
use bypath.Profile.Store.Shape.{
  IsKeyed, delete_group-IsKeyed, set_active_link-IsKeyed, new_manager-IsKeyed,
}
use bypath.Profile.Store.Effect.{
  add_link-Effect, remove_link-Effect, create_group-Effect, save_group-Effect, Effect-IsKeyed,
}
use bypath.Profile.Store.Saved.{IsSaved, lookup-new_manager}
use bypath.Profile.Store.Sync.{Effect-IsSaved, delete_group-IsSaved, set_active_link-IsSaved}
use bypath.Profile.Subscription.{update_subscriptions, add_subscription, remove_subscription}
use bypath.Profile.Subscription.Effect.{
  update_subscriptions-Effect, add_subscription-Effect, remove_subscription-Effect,
}

-- One call of a method that changes the manager, where `w` is the outcome of the write and
-- `removable` that of the removal of a file.
pub data Call (w : Write) (removable : Bool) (m : Manager) : Manager → Type 0 where
  add : (name : String) (link : Link) → Call w removable m (add_link w name link m).0
  remove : (name remark : String) → Call w removable m (remove_link w name remark m).0
  create : (name kind : String) → Call w removable m (create_group w name kind m).0
  drop : (name : String) → Call w removable m (delete_group removable name m).0
  save : (name : String) → Call w removable m (save_group w name m).0
  activate : (link : Link) → Call w removable m (set_active_link w link m)
  subscribe : (name url : String) → Call w removable m (add_subscription w name url m).0
  unsubscribe : (name : String) (i : ℤ) → Call w removable m (remove_subscription w name i m).0
  update :
      (fetch : String → Option (List Link)) (name : String)
      → Call w removable m (update_subscriptions w fetch name m).0

-- The managers that calls with any outcomes lead to.
pub data Reached (entries : Dict Content) (active_group : String) : Manager → Type 0 where
  start : Reached entries active_group (new_manager entries active_group)
  next :
      (w : Write) (removable : Bool) {m m' : Manager}
      → Reached entries active_group m
      → Call w removable m m'
      → Reached entries active_group m'

-- A name without a slash. The path of a file whose name has one is cleaned by `filepath.Join`, which
-- is not modelled.
abbrev pub is_plain_name : String → Bool
is_plain_name name = not (contains b'/' name)

-- whether the group of a call has a plain name
abbrev pub plain_call :
    {w : Write} {removable : Bool} {m m' : Manager} → Call w removable m m' → Bool
plain_call (add name link) = is_plain_name name
plain_call (remove name remark) = is_plain_name name
plain_call (create name kind) = is_plain_name name
plain_call (drop name) = is_plain_name name
plain_call (save name) = is_plain_name name
plain_call (activate link) = true
plain_call (subscribe name url) = is_plain_name name
plain_call (unsubscribe name i) = is_plain_name name
plain_call (update fetch name) = is_plain_name name

-- The managers that calls lead to, from an empty directory, where each write and removal succeeds and
-- no group has a slash in its name.
pub data Durable (active_group : String) : Manager → Type 0 where
  fresh : Durable active_group (new_manager [] active_group)
  then :
      {m m' : Manager}
      → Durable active_group m
      → (c : Call written true m m') → plain_call c ≡ true
      → Durable active_group m'

Call-IsKeyed :
    {w : Write} {removable : Bool} {m m' : Manager} → Call w removable m m' → IsKeyed m → IsKeyed m'
Call-IsKeyed {w} {m} (add name link) k = Effect-IsKeyed (add_link-Effect w name link m k) k
Call-IsKeyed {w} {m} (remove name remark) k =
    Effect-IsKeyed (remove_link-Effect w name remark m k) k
Call-IsKeyed {w} {m} (create name kind) k = Effect-IsKeyed (create_group-Effect w name kind m k) k
Call-IsKeyed {removable} {m} (drop name) k = delete_group-IsKeyed removable name m k
Call-IsKeyed {w} {m} (save name) k = Effect-IsKeyed (save_group-Effect w name m k) k
Call-IsKeyed {w} {m} (activate link) k = set_active_link-IsKeyed w link m k
Call-IsKeyed {w} {m} (subscribe name url) k =
    Effect-IsKeyed (add_subscription-Effect w name url m k) k
Call-IsKeyed {w} {m} (unsubscribe name i) k =
    Effect-IsKeyed (remove_subscription-Effect w name i m k) k
Call-IsKeyed {w} {m} (update fetch name) k =
    Effect-IsKeyed (update_subscriptions-Effect w fetch name m k) k

Call-IsSaved : {m m' : Manager} → Call written true m m' → IsKeyed m → IsSaved m → IsSaved m'
Call-IsSaved {m} (add name link) k s = Effect-IsSaved (add_link-Effect written name link m k) k s
Call-IsSaved {m} (remove name remark) k s =
    Effect-IsSaved (remove_link-Effect written name remark m k) k s
Call-IsSaved {m} (create name kind) k s =
    Effect-IsSaved (create_group-Effect written name kind m k) k s
Call-IsSaved {m} (drop name) k s = delete_group-IsSaved name m s
Call-IsSaved {m} (save name) k s = Effect-IsSaved (save_group-Effect written name m k) k s
Call-IsSaved {m} (activate link) k s = set_active_link-IsSaved written link m s
Call-IsSaved {m} (subscribe name url) k s =
    Effect-IsSaved (add_subscription-Effect written name url m k) k s
Call-IsSaved {m} (unsubscribe name i) k s =
    Effect-IsSaved (remove_subscription-Effect written name i m k) k s
Call-IsSaved {m} (update fetch name) k s =
    Effect-IsSaved (update_subscriptions-Effect written fetch name m k) k s

-- Whatever the directory held, and after any calls with any outcomes, each group of the manager
-- stands once, under its own name, and every link in it carries that name as its group.
pub Reached-IsKeyed :
    (entries : Dict Content) (active_group : String) {m : Manager}
    → Reached entries active_group m
    → IsKeyed m
Reached-IsKeyed entries active_group start = new_manager-IsKeyed entries active_group
Reached-IsKeyed entries active_group (next w removable r c) =
    Call-IsKeyed c (Reached-IsKeyed entries active_group r)

Durable-IsSaved :
    (active_group : String) {m : Manager} → Durable active_group m → IsKeyed m × IsSaved m
unfolding new_manager lookup
Durable-IsSaved active_group fresh =
    (new_manager-IsKeyed [] active_group, record { distinct = tt; named = tt; saved = λ k. refl })
Durable-IsSaved active_group (then d c plain) =
    let (k, s) = Durable-IsSaved active_group d in (Call-IsKeyed c k, Call-IsSaved c k s)

-- From an empty directory, after any calls whose writes and removals succeed and whose group names have
-- no slash, a restart finds under each name the group that the manager has there, and no group under
-- any other name: the fields of the group and of its links that are written come back, and the CDN mark
-- of each link is computed anew.
pub restart-Durable :
    (active_group later k : String) {m : Manager}
    → Durable active_group m
    → lookup k (new_manager m.directory later).groups
      ≡ Option.map (λ g. loaded (persisted g)) (lookup k m.groups)
restart-Durable active_group later k {m} d =
    lookup-new_manager m later k (Durable-IsSaved active_group d).1
