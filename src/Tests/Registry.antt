-- ===== src/Tests/Registry.antt =====
-- The transition tables and the error registry at concrete states and codes.
use vgen.Protocol.{TaskState, AttemptState, can_transition_attempt, require_task_transition}
use vgen.Protocol.Graph.{
  TaskPath, AttemptPath, terminal_absorbs, outcome_needs_running, attempt_moves_bounded,
}
use vgen.Protocol.Errors.{
  get_error_spec, get_error_spec_valid, retryable, ErrorSpec, ErrorOrigin, RetryAction,
  Responsibility,
}
use vgen.Base.{◌≤◌, ◌≡◌, ◌⊎◌, some, inl, refl, arith, none, true, ℕ}

terminal_absorbs_example : TaskState.succeeded ≡ TaskState.succeeded
terminal_absorbs_example =
    terminal_absorbs {s = TaskState.succeeded} {t = TaskState.succeeded} (omega arith) TaskPath.here

running_succeeds : TaskPath TaskState.reserved TaskState.succeeded
unfolding require_task_transition
running_succeeds =
    TaskPath.move {t = TaskState.running} refl
      (TaskPath.move {t = TaskState.succeeded} refl TaskPath.here)

outcome_needs_running_example :
    (TaskState.reserved ≡ TaskState.succeeded) ⊎ TaskPath TaskState.reserved TaskState.running
outcome_needs_running_example =
    outcome_needs_running {s = TaskState.reserved} {t = TaskState.succeeded} (inl refl)
      running_succeeds

three_moves : AttemptPath AttemptState.reserved AttemptState.succeeded 3
unfolding can_transition_attempt
three_moves = AttemptPath.move {t = AttemptState.leased} refl (
    AttemptPath.move {t = AttemptState.running} refl
      (AttemptPath.move {t = AttemptState.succeeded} refl AttemptPath.here))

attempt_moves_bounded_example : 3 ≤ 3
attempt_moves_bounded_example =
    attempt_moves_bounded {s = AttemptState.reserved} {t = AttemptState.succeeded} three_moves

abbrev lease_lost_spec : ErrorSpec
lease_lost_spec = record {
  code = 310001;
  http_status = 409;
  origin = ErrorOrigin.gateway;
  retry_action = RetryAction.another_worker;
  responsibility = Responsibility.platform;
  default_retry_after_ms = none;
}

get_error_spec_valid_example :
    (lease_lost_spec.code ≡ 310001)
    × (100000 ≤ 310001)
    × (310001 ≤ 999999)
    × ((ms : ℕ) → none ≡ some ms → retryable lease_lost_spec ≡ true)
unfolding get_error_spec
get_error_spec_valid_example = get_error_spec_valid 310001 lease_lost_spec refl
