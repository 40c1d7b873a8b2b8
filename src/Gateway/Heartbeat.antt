-- ===== src/Gateway/Heartbeat.antt =====
-- A worker reports while it executes an attempt (`heartbeat_attempt` of
-- src/vgen/gateway/repository.py).
pub mod Fencing
use vgen.Base.{
  ℕ, zero, suc, ◌+◌, String, Bool, true, false, ◌&&◌, ◌||◌, not, Option, none, some, List, [], ◌∷◌,
  leb, ltb, ◌==◌, if◌then◌else◌, is_none, test, eq_null, ahead,
}
use vgen.Table.{Table, insert, update_where, update_row}
use vgen.Protocol.{TaskState, AttemptState, task_in, attempt_in, attempt_index}
use vgen.Gateway.Db.{Db, Task, Attempt, Lease, Worker}
use vgen.Gateway.Tx.{
  Body, Result, ok, raise, raise_after, ◌>>=◌, ◌>>◌, require, found, lease_lost, progress_invalid,
}

-- The answer to a heartbeat.
pub record Directive : Type 0 where
  pub cancelled : Bool
  pub expires_at : ℕ

-- A row of leases joined with its attempt and its task.
abbrev pub fenced : ℕ → ℕ → Option Lease → Option Lease
fenced worker_id token none = none
fenced worker_id token (some l) =
    if l.worker_id == worker_id && l.fencing_token == token && is_none l.released_at
    then some l
    else none

abbrev pub is_cancelled : Task → Bool
is_cancelled t = task_in t.state (TaskState.cancelled ∷ [])

-- The second chance of a worker whose lease is gone: its task was cancelled.
abbrev pub acknowledges_cancel : ℕ → ℕ → Db → Attempt → Bool
acknowledges_cancel worker_id token db a =
    a.worker_id == worker_id
    && a.fencing_token == token
    && test is_cancelled (db.tasks.row a.task_id)

unfoldable pub lost_heartbeat : ℕ → ℕ → ℕ → ℕ → Body Directive
lost_heartbeat attempt_id worker_id token stamp db =
    if test (acknowledges_cancel worker_id token db) (db.attempts.row attempt_id)
    then ok (record { cancelled = true; expires_at = stamp }, db)
    else raise lease_lost

abbrev pub touch_lease : ℕ → ℕ → ℕ → ℕ → Db → Db
touch_lease attempt_id worker_id stamp ttl db = record db {
  workers =
      update_row worker_id (λ w. record w { last_seen_at = some stamp; updated_at = stamp })
        db.workers;
  leases =
      update_row attempt_id (λ l. record l { heartbeat_at = some stamp; expires_at = stamp + ttl })
        db.leases;
}

abbrev pub set_progress : ℕ → Option String → Db → Db
set_progress attempt_id none db = db
set_progress attempt_id (some text) db = record db {
  attempts = update_row attempt_id (λ a. record a { progress = text }) db.attempts;
}

abbrev pub start_attempt : ℕ → ℕ → ℕ → Bool → Db → Db
start_attempt attempt_id task_id stamp starts db =
    if starts
    then record db {
      attempts =
          update_row attempt_id
            (λ a. record a { state = AttemptState.running; started_at = some stamp }) db.attempts;
      tasks =
          update_row task_id (λ t. record t { state = TaskState.running; updated_at = stamp })
            db.tasks;
    }
    else db

-- A live lease with its attempt and its task, or none.
pub record Execution : Type 0 where
  pub lease : Lease
  pub attempt : Attempt
  pub task : Task

abbrev join_task : Lease → Attempt → Option Task → Option Execution
join_task l a none = none
join_task l a (some t) = some (record { lease = l; attempt = a; task = t })

abbrev join_attempt : Db → Lease → Option Attempt → Option Execution
join_attempt db l none = none
join_attempt db l (some a) = join_task l a (db.tasks.row a.task_id)

abbrev join_lease : Db → ℕ → Option Lease → Option Execution
join_lease db attempt_id none = none
join_lease db attempt_id (some l) = join_attempt db l (db.attempts.row attempt_id)

unfoldable pub execution : ℕ → ℕ → ℕ → Db → Option Execution
execution attempt_id worker_id token db =
    join_lease db attempt_id (fenced worker_id token (db.leases.row attempt_id))

pub record Heartbeat : Type 0 where
  pub attempt_id : ℕ
  pub worker_id : ℕ
  pub fencing_token : ℕ
  pub ttl : ℕ
  pub started : Bool
  -- `none`: no progress is reported; otherwise the value of `canonical_task_progress` on it
  pub progress : Option (Option String)

abbrev pub is_invalid : Option (Option String) → Bool
is_invalid (some none) = true
is_invalid _ = false

abbrev pub progress_text : Option (Option String) → Option String
progress_text none = none
progress_text (some p) = p

unfoldable pub live_heartbeat : Heartbeat → ℕ → Execution → Body Directive
live_heartbeat h stamp x db =
    let touched = touch_lease h.attempt_id h.worker_id stamp h.ttl db in
    if is_cancelled x.task
    then ok (record { cancelled = true; expires_at = stamp + h.ttl }, touched)
    else if is_invalid h.progress
    then raise_after touched progress_invalid
    else ok (
      record { cancelled = false; expires_at = stamp + h.ttl },
      start_attempt h.attempt_id x.attempt.task_id stamp
          (h.started && attempt_in x.attempt.state (AttemptState.leased ∷ []))
          (set_progress h.attempt_id (progress_text h.progress) touched),
    )

unfoldable pub heartbeat_attempt : Heartbeat → ℕ → Body Directive
unfolding execution live_heartbeat lost_heartbeat
heartbeat_attempt h stamp db = elim (execution h.attempt_id h.worker_id h.fencing_token db) [
  | none ↦ lost_heartbeat h.attempt_id h.worker_id h.fencing_token stamp db
  | some x ↦
      if leb x.lease.expires_at stamp
      then lost_heartbeat h.attempt_id h.worker_id h.fencing_token stamp db
      else live_heartbeat h stamp x db
]
