-- ===== src/Gateway/Preflight.antt =====
-- Whether a task could be scheduled now, without a reservation (`preflight_task` of
-- src/vgen/gateway/repository.py).
pub mod Organisation
pub mod Agreement
use vgen.Base.{
  ℕ, Bool, true, false, ◌&&◌, not, Option, none, some, ltb, ◌==◌, if◌then◌else◌, is_some, is_none,
}
use vgen.Table.{exists_where, exists_key}
use vgen.Gateway.Db.{Db, Worker, WorkerStatus, RateCard, PrincipalType}
use vgen.Gateway.Tx.{
  Result, ok, ◌>>=◌, ◌>>◌, require, found, service_principal_invalid, workspace_not_found,
  pool_not_found,
}
use vgen.Gateway.Access.{require_service, require_member}
use vgen.Gateway.Sweep.{is_status}
use vgen.Gateway.Leasing.{has_maintenance}
use vgen.Gateway.Rekey.{is_allocated, is_online, approved_rate}
use vgen.Gateway.Prepare.{
  PrepareRequest, Choice, free, queueing, nobody, task_candidate, task_queue_candidate, queued_load,
  max_queued_tasks_per_worker,
}

-- The states of the answer; `ready` and `queue_available` have the flag `ready` set.
pub data Readiness : Type 0 where
  no_allocated_worker capability_mismatch worker_offline_or_busy queue_full : Readiness
  rate_missing queue_available ready : Readiness

unfoldable pub has_allocated_worker : ℕ → Db → Bool
unfolding exists_key
has_allocated_worker pool_id db =
    exists_where
      (λ _ a.
        a.pool_id == pool_id && a.active && a.is_proven && is_some (db.workers.row a.worker_id))
      db.allocations

unfoldable pub has_online_allocated_worker : ℕ → ℕ → Db → Bool
unfolding exists_key has_maintenance
has_online_allocated_worker pool_id stamp db =
    exists_where
      (λ k w.
        is_allocated k pool_id db
        && is_status w.status WorkerStatus.active
        && is_online stamp w.last_seen_at
        && not (has_maintenance k db))
      db.workers

abbrev pub with_rate : Option (ℕ × RateCard) → Readiness → Readiness
with_rate none state = Readiness.rate_missing
with_rate (some card) state = state

unfoldable pub readiness : PrepareRequest → ℕ → Choice → Db → Readiness
unfolding approved_rate queued_load has_online_allocated_worker
readiness q stamp (free x) db = with_rate (approved_rate x.0 q.workspace_id db) Readiness.ready
readiness q stamp (queueing x) db =
    if ltb (queued_load x.0 db) max_queued_tasks_per_worker
    then with_rate (approved_rate x.0 q.workspace_id db) Readiness.queue_available
    else Readiness.queue_full
readiness q stamp nobody db =
    if has_online_allocated_worker q.pool_id stamp db
    then Readiness.capability_mismatch
    else Readiness.worker_offline_or_busy

unfoldable pub check_caller : PrepareRequest → Db → PrincipalType → Result (Unit {0})
unfolding require_service require_member
check_caller q db PrincipalType.service = do
  require_service db q.workspace_id q.principal.principal_id
  require (is_none q.principal.user_id) service_principal_invalid
check_caller q db PrincipalType.device =
    require_member db q.workspace_id q.principal.user_id >>= λ _. ok tt

-- The checks that `preflight_task` begins with.
unfoldable pub check_preflight : PrepareRequest → Db → Result (Unit {0})
unfolding check_caller
check_preflight q db = do
  check_caller q db q.principal.principal_type
  workspace ← found (db.workspaces.row q.workspace_id) workspace_not_found
  require workspace.active workspace_not_found
  pool ← found (db.pools.row q.pool_id) pool_not_found
  require (pool.workspace_id == q.workspace_id && pool.active) pool_not_found

-- A worker with room, or one whose queue the task joins, or none.
abbrev pub or_waiting : Option (ℕ × Worker) → Option (ℕ × Worker) → Choice
or_waiting (some x) queue = free x
or_waiting none (some x) = queueing x
or_waiting none none = nobody

unfoldable pub preflight_candidate : (ℕ → Worker → Bool) → PrepareRequest → ℕ → Db → Choice
unfolding task_candidate task_queue_candidate
preflight_candidate matches q stamp db =
    or_waiting (task_candidate matches q.pool_id q.executor_type stamp db)
      (task_queue_candidate matches q.pool_id q.executor_type stamp db)

-- `matches` is `_matches_requirements`, which reads the database too.
unfoldable pub preflight_task :
    (Db → ℕ → Worker → PrepareRequest → Bool) → PrepareRequest → ℕ → Db → Result Readiness
unfolding check_preflight has_allocated_worker preflight_candidate readiness
preflight_task matches q stamp db = do
  check_preflight q db
  if has_allocated_worker q.pool_id db
      then ok (readiness q stamp (preflight_candidate (λ k w. matches db k w q) q stamp db) db)
      else ok Readiness.no_allocated_worker
