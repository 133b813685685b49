-- ===== src/Limits/GroupLock.antt =====
-- `GroupLock` of src/services/group-lock.ts: a limit on the tasks of each group. Tasks are numbers.
pub mod Turns
mod Tests
use ubot_ai_agent.Base.{
  ℕ, ◌+◌, ◌-◌, ◌==◌, ltb, if◌then◌else◌, Bool, true, false, not, ◌&&◌, Option, none, some, List, [],
  ◌∷◌, ◌++◌, Text, same, filter, find, any,
}
use ubot_ai_agent.Base.Updates.{update}

-- An entry of the Map `states`.
pub record Group : Type 0 where
  pub group_id : Text
  pub active : ℕ
  pub queue : List ℕ

abbrev pub is_group : Text → Group → Bool
is_group group_id g = same g.group_id group_id

unfoldable pub get_active_count : Text → List Group → ℕ
get_active_count group_id gs = elim (find (is_group group_id) gs) [ none ↦ 0 | some g ↦ g.active ]

unfoldable pub get_or_create_state : Text → List Group → List Group
get_or_create_state group_id gs =
    if any (is_group group_id) gs
    then gs
    else gs ++ record { group_id = group_id; active = 0; queue = [] } ∷ []

-- A free place is taken, or the task joins the queue.
unfoldable pub take_place : ℕ → ℕ → Group → Group
take_place limit task g =
    if ltb g.active limit
    then record g { active = g.active + 1 }
    else record g { queue = g.queue ++ task ∷ [] }

unfoldable pub acquire : ℕ → Text → ℕ → List Group → List Group
unfolding get_or_create_state take_place
acquire limit group_id task gs =
    update (is_group group_id) (take_place limit task) (get_or_create_state group_id gs)

unfoldable pub next_turn : List ℕ → Group → Group
next_turn [] g = g
next_turn (task ∷ tasks) g = record g { active = g.active + 1; queue = tasks }

-- `Math.max(0, active - 1)`, and the turn of the first in the queue.
unfoldable pub give_place : Group → Group
unfolding next_turn
give_place g = next_turn g.queue (record g { active = g.active - 1 })

abbrev pub is_idle : List ℕ → ℕ → Bool
is_idle [] active = active == 0
is_idle (task ∷ tasks) active = false

-- The group whose last task has left is deleted; that is seen on the state before the turn is given.
unfoldable pub release : Text → List Group → List Group
unfolding give_place
release group_id gs =
    update (is_group group_id) give_place
      (filter (λ g. not (is_group group_id g && is_idle g.queue (g.active - 1))) gs)

pub data Event : Type 0 where
  acquires : (group_id : Text) (task : ℕ) → Event
  releases : (group_id : Text) → Event

unfoldable pub step : ℕ → Event → List Group → List Group
unfolding acquire release
step limit (acquires group_id task) gs = acquire limit group_id task gs
step limit (releases group_id) gs = release group_id gs

unfoldable pub run : ℕ → List Event → List Group → List Group
unfolding step
run limit [] gs = gs
run limit (e ∷ es) gs = run limit es (step limit e gs)
