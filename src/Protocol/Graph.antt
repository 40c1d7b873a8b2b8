-- ===== src/Protocol/Graph.antt =====
-- What follows from the transition tables of src/vgen/protocol/models.py along chains of moves.
use vgen.Base.{ℕ, suc, ◌+◌, ◌≤◌, ◌<◌, ◌≡◌, refl, true, none, ◌⊎◌, inl, inr, arith}
use vgen.Protocol.{
  TaskState, AttemptState, can_transition_attempt, require_task_transition, task_index,
}

-- A chain of moves that `require_task_transition` lets pass.
pub data TaskPath : TaskState → TaskState → Type 0 where
  here : {s : TaskState} → TaskPath s s
  move : {s t u : TaskState} → require_task_transition s t ≡ none → TaskPath t u → TaskPath s u

-- A chain of attempt moves and their number.
pub data AttemptPath : AttemptState → AttemptState → ℕ → Type 0 where
  here : {s : AttemptState} → AttemptPath s s 0
  move :
      {s t u : AttemptState} {n : ℕ}
      → can_transition_attempt s t ≡ true
      → AttemptPath t u n
      → AttemptPath s u (suc n)

abbrev pub IsTerminal : TaskState → Type 0
IsTerminal s = 6 ≤ task_index s

task_move_from : (s t : TaskState) → require_task_transition s t ≡ none → task_index s < 6
unfolding require_task_transition
task_move_from s t h = ground arith

-- From a terminal state no chain of moves leads to another state.
pub terminal_absorbs : {s t : TaskState} → IsTerminal s → TaskPath s t → t ≡ s
terminal_absorbs h here = refl
terminal_absorbs {s} h (TaskPath.move {t = m} e p) = absurd (omega (arith, task_move_from s m e))

succeeded_from :
    (s t : TaskState)
    → require_task_transition s t ≡ none
    → (t ≡ TaskState.succeeded) ⊎ (t ≡ TaskState.failed)
    → s ≡ TaskState.running
unfolding require_task_transition
succeeded_from s t h d = ground arith

-- A chain of moves that ends in `succeeded` or in `failed` starts there or passes `running`.
pub outcome_needs_running :
    {s t : TaskState}
    → (t ≡ TaskState.succeeded) ⊎ (t ≡ TaskState.failed)
    → TaskPath s t
    → (s ≡ t) ⊎ TaskPath s TaskState.running
outcome_needs_running d here = inl refl
outcome_needs_running {s} d (TaskPath.move {t = m} e p) = elim (outcome_needs_running d p) [
  | inl same ↦ inr (subst_running (succeeded_from s m e (rw same d)))
  | inr q ↦ inr (TaskPath.move e q)
]
  where
    subst_running : s ≡ TaskState.running → TaskPath s TaskState.running
    subst_running r = rw r TaskPath.here

attempt_rank : AttemptState → ℕ
attempt_rank AttemptState.reserved = 0
attempt_rank AttemptState.leased = 1
attempt_rank AttemptState.running = 2
attempt_rank _ = 3

rank_grows :
    (s t : AttemptState) → can_transition_attempt s t ≡ true → attempt_rank s < attempt_rank t
unfolding can_transition_attempt attempt_rank
rank_grows s t h = ground arith

rank_bound : (s : AttemptState) → attempt_rank s ≤ 3
unfolding attempt_rank
rank_bound s = ground arith

path_rank : {s t : AttemptState} {n : ℕ} → AttemptPath s t n → attempt_rank s + n ≤ attempt_rank t
path_rank here = omega arith
path_rank {s} (AttemptPath.move {t = m} e p) = omega (arith, rank_grows s m e, path_rank p)

-- An attempt makes three moves at most.
pub attempt_moves_bounded : {s t : AttemptState} {n : ℕ} → AttemptPath s t n → n ≤ 3
attempt_moves_bounded {t} p = omega (arith, path_rank p, rank_bound t)
