-- ===== src/Gateway/Tasks.antt =====
-- What a task's consumer does with it: `commit_task`, `cancel_task`, `commit_rekey` and the
-- position in a queue (src/vgen/gateway/repository.py).
pub mod Cancel
pub mod Queue
use vgen.Base.{
  ℕ, zero, suc, ◌+◌, String, Bool, true, false, ◌&&◌, ◌||◌, not, Option, none, some, List, [], ◌∷◌,
  leb, ltb, ◌==◌, if◌then◌else◌, is_none, test, eq_null, passed,
}
use vgen.Table.{Table, insert, update_where, update_row, count_where, count_keys}
use vgen.Protocol.{TaskState, AttemptState, task_in, attempt_in}
use vgen.Gateway.Db.{
  Db, Task, Attempt, Lease, KeyEnvelope, Artifact, ArtifactState, Direction, Responsibility,
}
use vgen.Gateway.Tx.{
  Body, Result, ok, raise, raise_after, ◌>>=◌, ◌>>◌, require, found, task_not_found,
  task_state_conflict, reservation_expired, input_artifact_not_uploaded, internal_error,
  integrity_error,
}
use vgen.Gateway.Access.{Principal, require_task_consumer}

abbrev pub is_pending_input : ℕ → ℕ → Artifact → Bool
is_pending_input task_id _ r =
    r.task_id == task_id && is_input r.direction && not (is_uploaded r.state)
  where
    is_input : Direction → Bool
    is_input Direction.input = true
    is_input Direction.output = false

    is_uploaded : ArtifactState → Bool
    is_uploaded ArtifactState.uploaded = true
    is_uploaded _ = false

-- `reservation_expires_at <= stamp` in Python: a NULL is a TypeError there.
abbrev pub check_reservation : Option ℕ → ℕ → Result Bool
check_reservation none stamp = raise internal_error
check_reservation (some t) stamp = ok (leb t stamp)

pub record CommitRequest : Type 0 where
  pub task_id : ℕ
  pub principal : Principal
  pub encrypted_payload : String
  pub worker_tdk_envelope : String
  pub reader_envelope : String
  pub key_algorithm : String

-- A NULL `assigned_worker_id` is refused by the NOT NULL column `recipient_id`.
abbrev pub add_worker_envelope : ℕ → ℕ → ℕ → String → String → ℕ → Db → Db
add_worker_envelope task_id worker_id version algorithm envelope stamp db = record db {
  envelopes =
      insert db.fresh
        (record {
          task_id = task_id;
          recipient_id = worker_id;
          key_version = version;
          algorithm = algorithm;
          envelope = envelope;
          created_at = stamp;
          revoked_at = none;
        })
        db.envelopes;
  fresh = suc db.fresh;
}

-- The statements of a commit that is let through: prepared to committed, the worker's envelope,
-- and committed to queued.
unfoldable pub store_commit : CommitRequest → Task → ℕ → ℕ → Db → Db
store_commit r t worker_id stamp db =
    let committed = record db {
      tasks =
          update_row r.task_id
            (λ u. record u {
              encrypted_payload = some r.encrypted_payload;
              reader_envelope = some r.reader_envelope;
              state = TaskState.committed;
              committed_at = some stamp;
              updated_at = stamp;
            })
            db.tasks;
    } in
    let enveloped =
      add_worker_envelope r.task_id worker_id t.content_key_version r.key_algorithm
        r.worker_tdk_envelope stamp committed in
    record enveloped {
      tasks =
          update_where (λ k u. k == r.task_id && task_in u.state (TaskState.committed ∷ []))
            (λ u. record u {
              state = TaskState.queued;
              reservation_expires_at = none;
              updated_at = stamp;
            })
            enveloped.tasks;
    }

unfoldable pub expire_task : ℕ → ℕ → Db → Db
expire_task task_id stamp db = record db {
  tasks =
      update_row task_id
        (λ u. record u { state = TaskState.expired; finished_at = some stamp; updated_at = stamp })
        db.tasks;
}

unfoldable pub commit_task : CommitRequest → ℕ → Body (Unit {0})
unfolding count_keys store_commit expire_task
commit_task r stamp db = do
  t ← found (db.tasks.row r.task_id) task_not_found
  require_task_consumer db t r.principal false
  require (task_in t.state (TaskState.prepared ∷ [])) task_state_conflict
  lapsed ← check_reservation t.reservation_expires_at stamp
  if lapsed then raise_after (expire_task r.task_id stamp db) reservation_expired else do
    require (count_where (is_pending_input r.task_id) db.artifacts == 0) input_artifact_not_uploaded
    worker_id ← found t.assigned_worker_id integrity_error
    ok (tt, store_commit r t worker_id stamp db)

-- The order in which a worker's queue is served.
abbrev pub task_before : ℕ × Task → ℕ × Task → Bool
task_before (k, t) (j, u) =
    ltb u.priority t.priority
    || (t.priority == u.priority
        && (ltb t.created_at u.created_at || (t.created_at == u.created_at && ltb k j)))

abbrev pub is_queued : Task → Bool
is_queued t = task_in t.state (TaskState.committed ∷ TaskState.queued ∷ [])

-- The WHERE of the position: `u` of identifier `k` is served before `t` of identifier `j`.
abbrev pub is_ahead : ℕ → Task → ℕ → Task → Bool
is_ahead k u j t =
    ltb t.priority u.priority
    || (u.priority == t.priority
        && (ltb u.created_at t.created_at || (u.created_at == t.created_at && ltb k j)))

unfoldable pub task_queue_position : ℕ → Task → Db → Option ℕ
unfolding count_keys
task_queue_position task_id t db =
    if is_queued t
    then elim t.assigned_worker_id [
      | none ↦ none
      | some worker_id ↦ some (
          count_where
            (λ k u. eq_null u.assigned_worker_id worker_id && is_queued u && is_ahead k u task_id t)
            db.tasks
          + 1)
    ]
    else none

abbrev pub is_final : TaskState → Bool
is_final s =
    task_in s
      (TaskState.succeeded ∷ TaskState.failed ∷ TaskState.cancelled ∷ TaskState.expired ∷ [])

-- An attempt that never ran ends with its task; a running one keeps its lease.
unfoldable pub store_cancel : ℕ → ℕ → Db → Db
store_cancel task_id stamp db =
    let attempts =
      update_where
        (λ _ a.
          a.task_id == task_id
          && attempt_in a.state (AttemptState.reserved ∷ AttemptState.leased ∷ []))
        (λ a. record a {
          state = AttemptState.cancelled;
          responsibility = some Responsibility.consumer;
          finished_at = some stamp;
        })
        db.attempts in
    record db {
      tasks =
          update_row task_id
            (λ t. record t {
              state = TaskState.cancelled;
              finished_at = some stamp;
              updated_at = stamp;
            })
            db.tasks;
      attempts = attempts;
      leases =
          update_where
            (λ k l.
              test
                (λ a.
                  a.task_id == task_id
                  && attempt_in a.state (AttemptState.cancelled ∷ [])
                  && is_none a.started_at)
                (attempts.row k)
              && is_none l.released_at)
            (λ l. record l { released_at = some stamp }) db.leases;
    }

-- Returns the state that the task is in afterwards.
unfoldable pub cancel_task : ℕ → Principal → ℕ → Body TaskState
unfolding store_cancel
cancel_task task_id p stamp db = do
  t ← found (db.tasks.row task_id) task_not_found
  require_task_consumer db t p true
  if is_final t.state
      then ok (t.state, db)
      else ok (TaskState.cancelled, store_cancel task_id stamp db)
