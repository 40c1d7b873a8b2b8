-- ===== src/Gateway/Sweep.antt =====
-- The sweeps of src/vgen/gateway/repository.py that expire reservations and leases and retire
-- drained workers.
pub mod Lapsed
pub mod Effects
use vgen.Base.{
  ℕ, zero, suc, ◌+◌, String, Bool, true, false, ◌&&◌, ◌||◌, not, Option, none, some, List, [], ◌∷◌,
  leb, ltb, ◌==◌, if◌then◌else◌, passed, ahead, is_none, is_some, test,
}
use vgen.Table.{
  Table, update_where, update_row, select_where, select_keys, exists_where, exists_key,
  select_first,
}
use vgen.Protocol.{TaskState, AttemptState, task_in, attempt_in}
use vgen.Gateway.Commands.{enqueue_task_rekey_command, ensure_rekey_commands}
use vgen.Gateway.Db.{
  Db, Task, Attempt, Lease, Worker, WorkerStatus, Command, CommandState, BrokerDevice, Job,
  JobState, WorkerSession, Responsibility, seconds,
}

-- ErrorCode.LEASE_LOST
abbrev pub lease_lost_code : ℕ
lease_lost_code = 310001

-- The tasks that `_expire_reservations` selects.
abbrev pub is_reservation_expired : ℕ → Task → Bool
is_reservation_expired stamp t =
    passed t.reservation_expires_at stamp
    && task_in t.state (
        TaskState.prepared ∷ TaskState.committed ∷ TaskState.queued ∷ TaskState.rekey_required ∷ [])

unfoldable pub task_expired : ℕ → Db → ℕ → Bool
task_expired stamp db task_id = test (is_reservation_expired stamp) (db.tasks.row task_id)

-- The early return on an empty selection needs no case: the updates then match no row.
unfoldable pub expire_reservations : ℕ → Db → Db
expire_reservations stamp db = record db {
  attempts =
      update_where
        (λ _ a.
          task_expired stamp db a.task_id
          && attempt_in a.state (AttemptState.reserved ∷ AttemptState.leased ∷ []))
        (λ a. record a { state = AttemptState.expired; finished_at = some stamp }) db.attempts;
  leases =
      update_where
        (λ k l.
          test (λ a. task_expired stamp db a.task_id) (db.attempts.row k) && is_none l.released_at)
        (λ l. record l { released_at = some stamp }) db.leases;
  tasks =
      update_where (λ k _. task_expired stamp db k)
        (λ t. record t { state = TaskState.expired; finished_at = some stamp; updated_at = stamp })
        db.tasks;
}

abbrev pub is_status : WorkerStatus → WorkerStatus → Bool
is_status s t = status_index s == status_index t
  where
    status_index : WorkerStatus → ℕ
    status_index WorkerStatus.pending = 0
    status_index WorkerStatus.active = 1
    status_index WorkerStatus.offline = 2
    status_index WorkerStatus.draining = 3
    status_index WorkerStatus.revoked = 4

abbrev pub is_live : AttemptState → Bool
is_live s = attempt_in s (AttemptState.leased ∷ AttemptState.running ∷ [])

abbrev pub holds_slot : AttemptState → Bool
holds_slot s =
    attempt_in s (AttemptState.reserved ∷ AttemptState.leased ∷ AttemptState.running ∷ [])

unfoldable pub is_drained : Db → ℕ → Worker → Bool
unfolding exists_key
is_drained db worker_id w =
    is_status w.status WorkerStatus.draining
    && not (exists_where (λ _ a. a.worker_id == worker_id && holds_slot a.state) db.attempts)

unfoldable pub finalize_drained_workers : ℕ → Db → Db
unfolding is_drained
finalize_drained_workers stamp db = record db {
  workers =
      update_where (is_drained db)
        (λ w. record w {
          status = WorkerStatus.revoked;
          revoked_at = some stamp;
          updated_at = stamp;
        })
        db.workers;
  sessions =
      update_where
        (λ _ s.
          test (is_drained db s.worker_id) (db.workers.row s.worker_id) && is_none s.revoked_at)
        (λ s. record s { revoked_at = some stamp }) db.sessions;
}

abbrev pub is_lease_expired : ℕ → ℕ → Lease → Bool
is_lease_expired stamp _ l = is_none l.released_at && leb l.expires_at stamp

-- The updates of one round of the loop: the lease, its attempt and its task.
unfoldable pub release_expired : ℕ → ℕ → ℕ → Db → Db
release_expired stamp attempt_id task_id db = record db {
  leases = update_row attempt_id (λ l. record l { released_at = some stamp }) db.leases;
  attempts =
      update_where (λ k a. k == attempt_id && is_live a.state)
        (λ a. record a {
          state = AttemptState.expired;
          responsibility = some Responsibility.platform;
          failure_code = some lease_lost_code;
          finished_at = some stamp;
        })
        db.attempts;
  tasks =
      update_where
        (λ k t. k == task_id && task_in t.state (TaskState.reserved ∷ TaskState.running ∷ []))
        (λ t. record t { state = TaskState.rekey_required; updated_at = stamp }) db.tasks;
}

abbrev pub is_executing : Task → Bool
is_executing t = task_in t.state (TaskState.reserved ∷ TaskState.running ∷ [])

unfoldable pub expire_lease : ℕ → ℕ → Option Attempt → Db → Db × ℕ
unfolding release_expired enqueue_task_rekey_command
expire_lease stamp attempt_id none db = (db, 0)
expire_lease stamp attempt_id (some a) db =
    let db' = release_expired stamp attempt_id a.task_id db in
    if test is_executing (db.tasks.row a.task_id)
    then ((enqueue_task_rekey_command a.task_id (some attempt_id) "lease_expired" stamp db').0, 1)
    else (db', 0)

unfoldable pub expire_each : ℕ → List ℕ → Db → Db × ℕ
unfolding expire_lease
expire_each stamp [] db = (db, 0)
expire_each stamp (attempt_id ∷ rest) db =
    let (db', n) = expire_lease stamp attempt_id (db.attempts.row attempt_id) db in
    let (db'', m) = expire_each stamp rest db' in (db'', n + m)

unfoldable pub expire_leases : ℕ → Db → Db × ℕ
unfolding expire_each select_keys finalize_drained_workers
expire_leases stamp db =
    let (db', transitioned) =
      expire_each stamp (select_where (is_lease_expired stamp) db.leases) db in
    (finalize_drained_workers stamp db', transitioned)
