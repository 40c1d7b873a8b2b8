-- ===== src/Gateway/Rekey.antt =====
-- A task moves to another worker: `prepare_retry` reserves the worker, and `commit_rekey` hands
-- over the key wrapped for it (src/vgen/gateway/repository.py).
pub mod Selection
pub mod Replacement
use text.Mathlib.Text.{◌==◌ as str_eq}
use vgen.Base.{
  ℕ, zero, suc, ◌+◌, String, Bool, true, false, ◌&&◌, ◌||◌, not, Option, none, some, List, [], ◌∷◌,
  ltb, ◌==◌, if◌then◌else◌, is_none, test, eq_null, ahead, ◌-◌,
}
use vgen.Table.{
  insert, update_where, update_row, count_where, count_keys, exists_where, exists_key, select_first,
  select_sorted,
}
use vgen.Protocol.{TaskState, AttemptState, task_in}
use vgen.Gateway.Db.{Db, Task, Attempt, Worker, WorkerStatus, RateCard, seconds}
use vgen.Gateway.Tx.{
  Body, ok, ◌>>=◌, ◌>>◌, require, found, task_not_found, task_state_conflict,
  task_retry_content_unavailable, no_eligible_worker, rate_not_approved, reservation_expired,
  integrity_error,
}
use vgen.Gateway.Access.{Principal, require_task_consumer}
use vgen.Gateway.Sweep.{expire_reservations, holds_slot, is_status}
use vgen.Gateway.Tasks.{add_worker_envelope, check_reservation}
use vgen.Gateway.Leasing.{has_maintenance, token_is_taken}

abbrev pub is_allocated : ℕ → ℕ → Db → Bool
is_allocated worker_id pool_id db =
    exists_where
      (λ _ a. a.worker_id == worker_id && a.pool_id == pool_id && a.active && a.is_proven)
      db.allocations

-- The attempts that use a worker's capacity: a reservation counts until it lapses.
unfoldable pub used_slots : ℕ → ℕ → Db → ℕ
unfolding count_keys
used_slots worker_id stamp db =
    count_where
      (λ _ a.
        a.worker_id == worker_id
        && holds_slot a.state
        && test (λ t. is_none t.reservation_expires_at || ahead t.reservation_expires_at stamp)
            (db.tasks.row a.task_id))
      db.attempts

-- `last_seen_at > stamp - WORKER_ONLINE_WINDOW_SECONDS`
abbrev pub is_online : ℕ → Option ℕ → Bool
is_online stamp none = false
is_online stamp (some seen) = ltb stamp (seen + seconds 120)

-- `w.id!=assigned_worker_id`, which no row passes where that column is NULL.
abbrev is_other : Option ℕ → ℕ → Bool
is_other none worker_id = false
is_other (some former) worker_id = not (former == worker_id)

unfoldable pub is_replacement : Task → ℕ → Db → ℕ → Worker → Bool
unfolding exists_key has_maintenance used_slots
is_replacement t stamp db worker_id w =
    is_allocated worker_id t.pool_id db
    && is_status w.status WorkerStatus.active
    && not (has_maintenance worker_id db)
    && is_other t.assigned_worker_id worker_id
    && str_eq w.executor_type t.executor_type
    && is_online stamp w.last_seen_at
    && ltb (used_slots worker_id stamp db) w.capacity

-- ORDER BY w.last_seen_at DESC, w.created_at
abbrev pub worker_before : ℕ × Worker → ℕ × Worker → Bool
worker_before (_, v) (_, w) = fresher v.last_seen_at w.last_seen_at
  where
    fresher : Option ℕ → Option ℕ → Bool
    fresher (some s) (some u) = ltb u s || (s == u && ltb v.created_at w.created_at)
    fresher _ _ = false

unfoldable pub take : {A : Type 0} → ℕ → List A → List A
take zero xs = []
take (suc n) [] = []
take (suc n) (x ∷ xs) = x ∷ take n xs

unfoldable pub first_match : (ℕ → Worker → Bool) → List (ℕ × Worker) → Option (ℕ × Worker)
first_match matches [] = none
first_match matches ((k, w) ∷ rest) = if matches k w then some (k, w) else first_match matches rest

-- The freshest of the first 50 workers whose capabilities match.
unfoldable pub replacement : (ℕ → Worker → Bool) → Task → ℕ → Db → Option (ℕ × Worker)
unfolding is_replacement select_sorted take first_match
replacement matches t stamp db =
    first_match matches
      (take 50 (select_sorted worker_before (is_replacement t stamp db) db.workers))

abbrev rate_before : ℕ × RateCard → ℕ × RateCard → Bool
rate_before (_, a) (_, b) = later a.decided_at b.decided_at
  where
    later : Option ℕ → Option ℕ → Bool
    later (some s) (some u) = ltb u s
    later (some s) none = true
    later none _ = false

unfoldable pub approved_rate : ℕ → ℕ → Db → Option (ℕ × RateCard)
unfolding select_first
approved_rate worker_id workspace_id db =
    select_first rate_before
      (λ _ r. r.worker_id == worker_id && r.workspace_id == workspace_id && r.approved)
      db.rate_cards

unfoldable pub greatest_number : ℕ → (ℕ → Option Attempt) → List ℕ → ℕ
greatest_number task_id row [] = 0
greatest_number task_id row (k ∷ ks) = larger (row k) (greatest_number task_id row ks)
  where
    larger : Option Attempt → ℕ → ℕ
    larger none n = n
    larger (some a) n =
        if a.task_id == task_id && ltb n a.attempt_number then a.attempt_number else n

-- COALESCE(MAX(attempt_number),0)+1
unfoldable pub next_attempt_number : ℕ → Db → ℕ
unfolding greatest_number
next_attempt_number task_id db = greatest_number task_id db.attempts.row db.attempts.keys + 1

abbrev pub retry_attempt : ℕ → ℕ → ℕ → ℕ → ℕ → Attempt
retry_attempt task_id worker_id fencing number stamp = record {
  task_id = task_id;
  attempt_number = number;
  worker_id = worker_id;
  state = AttemptState.reserved;
  responsibility = none;
  failure_code = none;
  progress = "{}";
  fencing_token = fencing;
  reserved_at = stamp;
  leased_at = none;
  started_at = none;
  finished_at = none;
  finish_semantic_hash = none;
  finish_receipt = none;
}

abbrev pub retried_task : ℕ → ℕ → ℕ → Task → Task
retried_task worker_id stamp ttl t = record t {
  assigned_worker_id = some worker_id;
  reservation_expires_at = some (stamp + ttl);
  state = TaskState.rekey_required;
  finished_at = none;
  updated_at = stamp;
}

unfoldable pub store_retry : ℕ → ℕ → ℕ → ℕ → ℕ → ℕ → Db → Db
store_retry task_id worker_id fencing number stamp ttl db = record db {
  workers =
      update_row worker_id (λ w. record w { fencing_counter = fencing; updated_at = stamp })
        db.workers;
  attempts = insert db.fresh (retry_attempt task_id worker_id fencing number stamp) db.attempts;
  tasks = update_row task_id (retried_task worker_id stamp ttl) db.tasks;
  fresh = suc db.fresh;
}

abbrev pub has_text : Option String → Bool
has_text none = false
has_text (some text) = not (str_eq text "")

-- The reservation that a retry answers with.
pub record Reservation : Type 0 where
  pub attempt_id : ℕ
  pub worker_id : ℕ
  pub fencing_token : ℕ
  pub reservation_expires_at : ℕ

unfoldable pub reserve_retry : (Db → ℕ → Worker → Task → Bool) → ℕ → ℕ → Task → ℕ → Body Reservation
unfolding replacement approved_rate next_attempt_number store_retry token_is_taken
reserve_retry matches task_id ttl t stamp db = do
  (worker_id, w) ← found (replacement (λ k v. matches db k v t) t stamp db) no_eligible_worker
  (rate_id, rate) ← found (approved_rate worker_id t.workspace_id db) rate_not_approved
  let fencing = w.fencing_counter + 1
  require (not (token_is_taken worker_id fencing db.fresh db)) integrity_error
  ok (
    record {
      attempt_id = db.fresh;
      worker_id = worker_id;
      fencing_token = fencing;
      reservation_expires_at = stamp + ttl;
    },
    store_retry task_id worker_id fencing (next_attempt_number task_id db) stamp ttl db,
  )

abbrev pub may_retry : TaskState → Bool
may_retry s = task_in s (TaskState.failed ∷ TaskState.rekey_required ∷ TaskState.expired ∷ [])

-- `prepare_retry`; `matches` is `_matches_requirements` on the database, a worker's row and the
-- task's requirements and workflow.
unfoldable pub prepare_retry :
    (Db → ℕ → Worker → Task → Bool) → ℕ → Principal → ℕ → ℕ → Body Reservation
unfolding expire_reservations reserve_retry
prepare_retry matches task_id p ttl stamp before = do
  let db = expire_reservations stamp before
  t ← found (db.tasks.row task_id) task_not_found
  require_task_consumer db t p true
  require (may_retry t.state) task_state_conflict
  require (has_text t.encrypted_payload && has_text t.reader_envelope)
      task_retry_content_unavailable
  reserve_retry matches task_id ttl t stamp db

pub record RekeyRequest : Type 0 where
  pub task_id : ℕ
  pub principal : Principal
  pub replacement_worker_id : ℕ
  pub worker_tdk_envelope : String
  pub key_algorithm : String

-- Every envelope of the task for a worker is revoked, then the new one is stored.
unfoldable pub store_rekey : RekeyRequest → Task → ℕ → Db → Db
store_rekey r t stamp db =
    let revoked = record db {
      envelopes =
          update_where (λ _ e. e.task_id == r.task_id && is_none e.revoked_at)
            (λ e. record e { revoked_at = some stamp }) db.envelopes;
    } in
    let enveloped =
      add_worker_envelope r.task_id r.replacement_worker_id t.content_key_version r.key_algorithm
        r.worker_tdk_envelope stamp revoked in
    record enveloped {
      tasks =
          update_row r.task_id
            (λ u. record u {
              state = TaskState.queued;
              reservation_expires_at = none;
              updated_at = stamp;
            })
            enveloped.tasks;
    }

unfoldable pub commit_rekey : RekeyRequest → ℕ → Body (Unit {0})
unfolding store_rekey
commit_rekey r stamp db = do
  t ← found (db.tasks.row r.task_id) task_not_found
  require_task_consumer db t r.principal false
  require
      (task_in t.state (TaskState.rekey_required ∷ [])
        && eq_null t.assigned_worker_id r.replacement_worker_id)
      task_state_conflict
  lapsed ← check_reservation t.reservation_expires_at stamp
  require (not lapsed) reservation_expired
  ok (tt, store_rekey r t stamp db)
