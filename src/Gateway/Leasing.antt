-- ===== src/Gateway/Leasing.antt =====
-- A worker takes its next task (`lease` of src/vgen/gateway/repository.py).
pub mod Grants
pub mod Order
pub mod Capacity
pub mod Constraints
pub mod Progress
use vgen.Base.{
  ℕ, zero, suc, ◌+◌, String, Bool, true, false, ◌&&◌, ◌||◌, not, Option, none, some, List, [], ◌∷◌,
  leb, ltb, ◌==◌, if◌then◌else◌, is_none, test, eq_null, ahead,
}
use vgen.Table.{
  Table, insert, update_where, update_row, count_where, count_keys, exists_where, exists_key,
  select_first,
}
use vgen.Protocol.{TaskState, AttemptState, task_in, attempt_in, attempt_index}
use vgen.Gateway.Db.{Db, Task, Attempt, Lease, Worker, WorkerStatus, KeyEnvelope, Job, JobState}
use vgen.Gateway.Tx.{
  Body, Result, ok, raise, raise_after, ◌>>=◌, ◌>>◌, require, found, worker_not_found,
  worker_draining, worker_offline, attempt_state_conflict, rekey_required, integrity_error,
  lease_lost, progress_invalid,
}
use vgen.Gateway.Sweep.{expire_reservations, expire_leases, is_live, is_status}
use vgen.Gateway.Tasks.{task_before, is_queued}

-- What a lease tells the worker. The encrypted payload, the artifacts and the requirements are
-- copied to the reply from rows that the lease does not change.
pub record Grant : Type 0 where
  pub lease_id : ℕ
  pub attempt_id : ℕ
  pub task_id : ℕ
  pub fencing_token : ℕ
  pub expires_at : ℕ
  pub key_version : ℕ
  pub encrypted_tdk_envelope : String

unfoldable pub active_count : ℕ → Db → ℕ
unfolding count_keys
active_count worker_id db =
    count_where (λ _ a. a.worker_id == worker_id && is_live a.state) db.attempts

-- The maintenance jobs that keep tasks away from a worker.
abbrev pub blocks_tasks : JobState → Bool
blocks_tasks JobState.queued = true
blocks_tasks JobState.leased = true
blocks_tasks JobState.running = true
blocks_tasks JobState.restarting = true
blocks_tasks _ = false

unfoldable pub has_maintenance : ℕ → Db → Bool
unfolding exists_key
has_maintenance worker_id db =
    exists_where (λ _ j. j.worker_id == worker_id && blocks_tasks j.state) db.jobs

abbrev pub is_runnable : ℕ → ℕ → Task → Bool
is_runnable worker_id stamp t =
    eq_null t.assigned_worker_id worker_id
    && is_queued t
    && (is_none t.reservation_expires_at || ahead t.reservation_expires_at stamp)

unfoldable pub next_task : ℕ → ℕ → Db → Option (ℕ × Task)
unfolding select_first
next_task worker_id stamp db =
    select_first task_before (λ _ t. is_runnable worker_id stamp t) db.tasks

abbrev pub attempt_before : ℕ × Attempt → ℕ × Attempt → Bool
attempt_before (_, a) (_, b) = ltb b.attempt_number a.attempt_number

abbrev pub is_reserved_for : ℕ → ℕ → Attempt → Bool
is_reserved_for task_id worker_id a =
    a.task_id == task_id
    && a.worker_id == worker_id
    && attempt_in a.state (AttemptState.reserved ∷ [])

unfoldable pub reserved_attempt : ℕ → ℕ → Db → Option (ℕ × Attempt)
unfolding select_first
reserved_attempt task_id worker_id db =
    select_first attempt_before (λ _ a. is_reserved_for task_id worker_id a) db.attempts

abbrev envelope_before : ℕ × KeyEnvelope → ℕ × KeyEnvelope → Bool
envelope_before (_, e) (_, f) = ltb f.created_at e.created_at

unfoldable pub worker_envelope : ℕ → ℕ → Db → Option (ℕ × KeyEnvelope)
unfolding select_first
worker_envelope task_id worker_id db =
    select_first envelope_before
      (λ _ e. e.task_id == task_id && e.recipient_id == worker_id && is_none e.revoked_at)
      db.envelopes

-- UNIQUE(worker_id, fencing_token) over the other attempts.
unfoldable pub token_is_taken : ℕ → ℕ → ℕ → Db → Bool
unfolding exists_key
token_is_taken worker_id token attempt_id db =
    exists_where
      (λ k a. not (k == attempt_id) && a.worker_id == worker_id && a.fencing_token == token)
      db.attempts

-- The four statements that hand an attempt to its worker.
unfoldable pub store_lease : ℕ → ℕ → ℕ → ℕ → ℕ → ℕ → KeyEnvelope → Db → Db
store_lease worker_id fencing attempt_id task_id stamp ttl key db = record db {
  attempts =
      update_where (λ k a. k == attempt_id && attempt_in a.state (AttemptState.reserved ∷ []))
        (λ a. record a {
          state = AttemptState.leased;
          fencing_token = fencing;
          leased_at = some stamp;
        })
        db.attempts;
  workers =
      update_row worker_id (λ w. record w { fencing_counter = fencing; updated_at = stamp })
        db.workers;
  leases =
      insert attempt_id
        (record {
          id = db.fresh;
          worker_id = worker_id;
          fencing_token = fencing;
          encrypted_tdk_envelope = key.envelope;
          issued_at = stamp;
          expires_at = stamp + ttl;
          heartbeat_at = some stamp;
          released_at = none;
        })
        db.leases;
  tasks =
      update_row task_id (λ t. record t { state = TaskState.reserved; updated_at = stamp })
        db.tasks;
  fresh = suc db.fresh;
}

unfoldable pub assign_task : ℕ → Worker → ℕ → ℕ → ℕ → Body (Option Grant)
unfolding store_lease reserved_attempt worker_envelope token_is_taken
assign_task worker_id w task_id stamp ttl db = do
  (attempt_id, a) ← found (reserved_attempt task_id worker_id db) attempt_state_conflict
  (key_id, key) ← found (worker_envelope task_id worker_id db) rekey_required
  let fencing = w.fencing_counter + 1
  require (not (token_is_taken worker_id fencing attempt_id db)) integrity_error
  require (is_none (db.leases.row attempt_id)) integrity_error
  ok (
    some (record {
      lease_id = db.fresh;
      attempt_id = attempt_id;
      task_id = task_id;
      fencing_token = fencing;
      expires_at = stamp + ttl;
      key_version = key.key_version;
      encrypted_tdk_envelope = key.envelope;
    }),
    store_lease worker_id fencing attempt_id task_id stamp ttl key db,
  )

-- The part of `lease` behind its sweeps; a `none` is the answer that there is no work.
unfoldable pub lease_swept : ℕ → ℕ → ℕ → Body (Option Grant)
unfolding assign_task active_count has_maintenance next_task
lease_swept worker_id ttl stamp db = do
  w ← found (db.workers.row worker_id) worker_not_found
  require (not (is_status w.status WorkerStatus.draining)) worker_draining
  require (is_status w.status WorkerStatus.active) worker_offline
  if leb w.capacity (active_count worker_id db) || has_maintenance worker_id db
      then ok (none, db)
      else (elim (next_task worker_id stamp db) [
        | none ↦ ok (none, db)
        | some (task_id, t) ↦ assign_task worker_id w task_id stamp ttl db
      ])

unfoldable pub lease : ℕ → ℕ → ℕ → Body (Option Grant)
unfolding lease_swept expire_reservations expire_leases
lease worker_id ttl stamp db =
    lease_swept worker_id ttl stamp (expire_leases stamp (expire_reservations stamp db)).0
