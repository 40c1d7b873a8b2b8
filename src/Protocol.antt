-- ===== src/Protocol.antt =====
-- The states of tasks and attempts and the tables of their transitions
-- (src/vgen/protocol/models.py). The two enums share constructor names, as they do in the source:
-- write `TaskState.running` or `AttemptState.running`.
pub mod Graph
pub mod Errors
use vgen.Base.{ℕ, Bool, true, false, ◌||◌, Option, none, some, List, [], ◌∷◌, ◌==◌, if◌then◌else◌}

pub data TaskState : Type 0 where
  prepared committed queued reserved running rekey_required : TaskState
  succeeded failed cancelled expired : TaskState

pub data AttemptState : Type 0 where
  reserved leased running succeeded failed cancelled expired : AttemptState

-- Equality of the members of an enum, by their place in the class body.
abbrev pub task_index : TaskState → ℕ
task_index TaskState.prepared = 0
task_index TaskState.committed = 1
task_index TaskState.queued = 2
task_index TaskState.reserved = 3
task_index TaskState.running = 4
task_index TaskState.rekey_required = 5
task_index TaskState.succeeded = 6
task_index TaskState.failed = 7
task_index TaskState.cancelled = 8
task_index TaskState.expired = 9

abbrev pub attempt_index : AttemptState → ℕ
attempt_index AttemptState.reserved = 0
attempt_index AttemptState.leased = 1
attempt_index AttemptState.running = 2
attempt_index AttemptState.succeeded = 3
attempt_index AttemptState.failed = 4
attempt_index AttemptState.cancelled = 5
attempt_index AttemptState.expired = 6

-- `state in (...)`
abbrev pub task_in : TaskState → List TaskState → Bool
task_in s [] = false
task_in s (t ∷ ts) = (task_index s == task_index t) || task_in s ts

abbrev pub attempt_in : AttemptState → List AttemptState → Bool
attempt_in s [] = false
attempt_in s (t ∷ ts) = (attempt_index s == attempt_index t) || attempt_in s ts

-- TASK_TRANSITIONS and ATTEMPT_TRANSITIONS.
unfoldable pub task_transitions : TaskState → List TaskState
task_transitions TaskState.prepared =
    TaskState.committed ∷ TaskState.cancelled ∷ TaskState.expired ∷ []
task_transitions TaskState.committed = TaskState.queued ∷ TaskState.cancelled ∷ []
task_transitions TaskState.queued =
    TaskState.reserved ∷ TaskState.cancelled ∷ TaskState.expired ∷ []
task_transitions TaskState.reserved =
    TaskState.running ∷ TaskState.rekey_required ∷ TaskState.cancelled ∷ TaskState.expired ∷ []
task_transitions TaskState.running =
    TaskState.succeeded ∷ TaskState.failed ∷ TaskState.cancelled ∷ TaskState.rekey_required ∷ []
task_transitions TaskState.rekey_required =
    TaskState.queued ∷ TaskState.reserved ∷ TaskState.cancelled ∷ TaskState.expired ∷ []
task_transitions _ = []

unfoldable pub attempt_transitions : AttemptState → List AttemptState
attempt_transitions AttemptState.reserved =
    AttemptState.leased ∷ AttemptState.cancelled ∷ AttemptState.expired ∷ []
attempt_transitions AttemptState.leased =
    AttemptState.running ∷ AttemptState.failed ∷ AttemptState.cancelled ∷ AttemptState.expired ∷ []
attempt_transitions AttemptState.running =
    AttemptState.succeeded ∷ AttemptState.failed ∷ AttemptState.cancelled ∷ AttemptState.expired
    ∷ []
attempt_transitions _ = []

unfoldable pub can_transition_task : TaskState → TaskState → Bool
unfolding task_transitions
can_transition_task current target = task_in target (task_transitions current)

unfoldable pub can_transition_attempt : AttemptState → AttemptState → Bool
unfolding attempt_transitions
can_transition_attempt current target = attempt_in target (attempt_transitions current)

-- require_task_transition and require_attempt_transition: `none` is the return, `some` the
-- `from_state` and `to_state` of the TASK_STATE_CONFLICT that is raised.
unfoldable pub require_task_transition : TaskState → TaskState → Option (TaskState × TaskState)
unfolding can_transition_task
require_task_transition source destination =
    if can_transition_task source destination then none else some (source, destination)

unfoldable pub require_attempt_transition :
    AttemptState → AttemptState → Option (AttemptState × AttemptState)
unfolding can_transition_attempt
require_attempt_transition source destination =
    if can_transition_attempt source destination then none else some (source, destination)
