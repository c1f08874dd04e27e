-- ===== src/Tui/Update/Reached.antt =====
-- The menus that the program reaches, and that each of them is sound.
use bypath.Base.{some, ◌≡◌}
use bypath.Tui.{Model, Msg, Stepped}
use bypath.Tui.Files.{Surroundings, find_groups}
use bypath.Tui.Update.{initial_model, update}
use bypath.Tui.Update.Branches.{Fine-some}
use bypath.Tui.Update.Sound.{IsSound, first_other-IsIndex}
use bypath.Tui.Update.Keeps.{Overruns, Deletes, Keeps, update-Fine}

initial_model-IsSound : (env : Surroundings) → IsSound (initial_model env)
unfolding initial_model
initial_model-IsSound env = (first_other-IsIndex (find_groups env), λ e. cc)

-- The menus that are reached: by any messages, whatever the system answers behind each.
pub data Reached : Model → Type 0 where
  starts : (env : Surroundings) → Reached (initial_model env)
  then_on :
      {m : Model} {s : Stepped} (env : Surroundings) (msg : Msg)
      → Reached m
      → update env msg m ≡ some s
      → Reached s.model

pub Reached-IsSound : {m : Model} → Reached m → IsSound m
Reached-IsSound (starts env) = initial_model-IsSound env
Reached-IsSound (then_on {m} env msg before e) =
    (Fine-some (Overruns env m msg) (Keeps m msg) (update-Fine env msg m (Reached-IsSound before))
      e).0

-- In a menu that the program reaches, a step removes no file of a group and no subscription, and has no
-- link removed, unless it is `enter` or space in an open dialog with Yes selected. Then the dialog's label
-- asks to delete that group, a subscription of a group, or a server, and what is removed is the group
-- that the label and the action name, or the subscription or link of the number and of the group that
-- the dialog's action holds; another group or number only if a bar is in the group's name, and another
-- number if it fits no int.
pub update-Deletes :
    {m : Model}
    → Reached m
    → (env : Surroundings) (msg : Msg) {s : Stepped} → update env msg m ≡ some s
    → Deletes m msg s
update-Deletes {m} h env msg e =
    (Fine-some (Overruns env m msg) (Keeps m msg) (update-Fine env msg m (Reached-IsSound h)) e).1
