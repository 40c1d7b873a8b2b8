-- ===== src/Gateway/Safety/Reports.antt =====
-- `heartbeat_attempt` and `finish_attempt` keep the database consistent.
use vgen.Table.Laws.{IsTable-kept}
use vgen.Gateway.Db.{Db, Attempt}
use vgen.Gateway.Heartbeat.{
  Heartbeat, Execution, execution, heartbeat_attempt, live_heartbeat, lost_heartbeat, touch_lease,
  set_progress, start_attempt, is_cancelled, is_invalid, progress_text, acknowledges_cancel,
  Directive,
}
use vgen.Gateway.Safety.{IsConsistent, attempt_in, AttemptState}
use vgen.Base.{
  [], ◌∷◌, ◌==◌, ◌&&◌, ◌≡◌, none, some, true, refl, arith, ℕ, Option, String, false, if◌then◌else◌,
  Bool, test, leb,
}
use vgen.Gateway.Tx.{
  Ensures, Ensures-if, Result, Ensures-ok, Ensures-raise, lease_lost, progress_invalid,
}
use vgen.Gateway.Safety.Leases.{Kept}

touch_lease-IsConsistent :
    (attempt_id worker_id stamp ttl : ℕ) (db : Db)
    → IsConsistent db
    → IsConsistent (touch_lease attempt_id worker_id stamp ttl db)
touch_lease-IsConsistent attempt_id worker_id stamp ttl db h = record {
  leases_table = IsTable-kept h.leases_table refl (λ k. ground arith);
  attempts_table = h.attempts_table;
  tasks_table = h.tasks_table;
  tasks_agree = h.tasks_agree;
  leases_agree = λ k. ground (arith, h.leases_agree k);
  tokens_drawn = λ k. ground (arith, h.tokens_drawn k);
  leases_fenced = λ k. ground (arith, h.leases_fenced k);
  live_unique = h.live_unique;
  not_started = h.not_started;
  workers_agree = λ k. ground (arith, h.workers_agree k, h.tasks_agree k);
  attempts_drawn = λ k. ground (arith, h.attempts_drawn k);
  tasks_drawn = λ k. ground (arith, h.tasks_drawn k);
  leases_drawn = λ k. ground (arith, h.leases_drawn k);
  tokens_unique = h.tokens_unique;
}

set_progress-IsConsistent :
    (attempt_id : ℕ) (o : Option String) (db : Db)
    → IsConsistent db
    → IsConsistent (set_progress attempt_id o db)
set_progress-IsConsistent attempt_id none db h = h
set_progress-IsConsistent attempt_id (some text) db h = record {
  leases_table = h.leases_table;
  attempts_table = IsTable-kept h.attempts_table refl (λ k. ground arith);
  tasks_table = h.tasks_table;
  tasks_agree = λ k. ground (arith, h.tasks_agree k);
  leases_agree = λ k. ground (arith, h.leases_agree k);
  tokens_drawn = λ k. ground (arith, h.tokens_drawn k);
  leases_fenced = λ k. ground (arith, h.leases_fenced k);
  live_unique = λ j k. ground (arith, h.live_unique j k);
  not_started = λ k. ground (arith, h.not_started k);
  workers_agree = λ k. ground (arith, h.workers_agree k, h.tasks_agree k);
  attempts_drawn = λ k. ground (arith, h.attempts_drawn k);
  tasks_drawn = λ k. ground (arith, h.tasks_drawn k);
  leases_drawn = λ k. ground (arith, h.leases_drawn k);
  tokens_unique = λ j k. ground (arith, h.tokens_unique j k);
}

module _ (attempt_id task_id stamp : ℕ) (db : Db) (h : IsConsistent db)
    (leased : test
        (λ a. a.task_id == task_id && attempt_in a.state (AttemptState.leased ∷ []))
        (db.attempts.row attempt_id)
      ≡ true) where
  start_attempt-IsConsistent : IsConsistent (start_attempt attempt_id task_id stamp true db)
  start_attempt-IsConsistent = record {
    leases_table = h.leases_table;
    attempts_table = IsTable-kept h.attempts_table refl (λ k. ground arith);
    tasks_table = IsTable-kept h.tasks_table refl (λ k. ground arith);
    tasks_agree =
        λ k. ground (arith, h.tasks_agree k, h.tasks_agree attempt_id, h.live_unique k attempt_id);
    leases_agree = λ k. ground (arith, h.leases_agree k);
    tokens_drawn = λ k. ground (arith, h.tokens_drawn k);
    leases_fenced = λ k. ground (arith, h.leases_fenced k);
    live_unique = λ j k. ground (arith, h.live_unique j k);
    not_started = λ k. ground (arith, h.not_started k);
    workers_agree = λ k. ground (arith, h.workers_agree k, h.tasks_agree k);
    attempts_drawn = λ k. ground (arith, h.attempts_drawn k);
    tasks_drawn = λ k. ground (arith, h.tasks_drawn k);
    leases_drawn = λ k. ground (arith, h.leases_drawn k);
    tokens_unique = λ j k. ground (arith, h.tokens_unique j k);
  }

-- What a found execution says of the rows.
pub record Joined (attempt_id worker_id token : ℕ) (db : Db) (x : Execution) : Type 0 where
  pub lease_row : db.leases.row attempt_id ≡ some x.lease
  pub attempt_row : db.attempts.row attempt_id ≡ some x.attempt
  pub task_row : db.tasks.row x.attempt.task_id ≡ some x.task
  pub worker : x.lease.worker_id ≡ worker_id
  pub token_is : x.lease.fencing_token ≡ token
  pub unreleased : x.lease.released_at ≡ none

pub execution-Joined :
    (attempt_id worker_id token : ℕ) (db : Db) (x : Execution)
    → execution attempt_id worker_id token db ≡ some x
    → Joined attempt_id worker_id token db x
unfolding execution
execution-Joined attempt_id worker_id token db x e = record {
  lease_row = ground arith;
  attempt_row = ground arith;
  task_row = ground arith;
  worker = ground arith;
  token_is = ground arith;
  unreleased = ground arith;
}

start-IsConsistent :
    (b : Bool) (attempt_id task_id stamp : ℕ) (db : Db)
    → IsConsistent db
    → (b ≡ true
        → test
            (λ a. a.task_id == task_id && attempt_in a.state (AttemptState.leased ∷ []))
            (db.attempts.row attempt_id)
          ≡ true)
    → IsConsistent (start_attempt attempt_id task_id stamp b db)
start-IsConsistent true attempt_id task_id stamp db h l =
    start_attempt-IsConsistent attempt_id task_id stamp db h (l refl)
start-IsConsistent false attempt_id task_id stamp db h l = h

lost_heartbeat-IsConsistent :
    (attempt_id worker_id token stamp : ℕ) (db : Db)
    → IsConsistent db
    → Ensures Kept (lost_heartbeat attempt_id worker_id token stamp db)
unfolding lost_heartbeat
lost_heartbeat-IsConsistent attempt_id worker_id token stamp db h =
    Ensures-if (test (acknowledges_cancel worker_id token db) (db.attempts.row attempt_id)) _ _
      (λ yes_. Ensures-ok _ db h) (λ no_. Ensures-raise lease_lost)

leased_after_progress :
    (attempt_id worker_id stamp ttl : ℕ) (o : Option String) (started : Bool) (a : Attempt)
    (db : Db)
    → db.attempts.row attempt_id ≡ some a
    → (started && attempt_in a.state (AttemptState.leased ∷ [])) ≡ true
    → test
        (λ b. b.task_id == a.task_id && attempt_in b.state (AttemptState.leased ∷ []))
        ((set_progress attempt_id o (touch_lease attempt_id worker_id stamp ttl db)).attempts.row
          attempt_id)
      ≡ true
leased_after_progress attempt_id worker_id stamp ttl none started a db e l = ground arith
leased_after_progress attempt_id worker_id stamp ttl (some text) started a db e l = ground arith

live_heartbeat-IsConsistent :
    (r : Heartbeat) (stamp : ℕ) (x : Execution) (db : Db)
    → IsConsistent db
    → db.attempts.row r.attempt_id ≡ some x.attempt
    → Ensures Kept (live_heartbeat r stamp x db)
unfolding live_heartbeat
live_heartbeat-IsConsistent r stamp x db h e =
    let touched = touch_lease-IsConsistent r.attempt_id r.worker_id stamp r.ttl db h in
    Ensures-if (is_cancelled x.task) _ _ (λ cancelled. Ensures-ok _ _ touched)
      λ running.
        Ensures-if (is_invalid r.progress) _ _ (λ bad. Ensures-raise progress_invalid)
          λ good. Ensures-ok _ _ (
            start-IsConsistent (r.started && attempt_in x.attempt.state (AttemptState.leased ∷ []))
              r.attempt_id x.attempt.task_id stamp _
              (set_progress-IsConsistent r.attempt_id (progress_text r.progress) _ touched)
              (leased_after_progress r.attempt_id r.worker_id stamp r.ttl (progress_text r.progress)
                r.started x.attempt db e))

-- A heartbeat that is answered leaves the database consistent.
pub heartbeat_attempt-IsConsistent :
    (r : Heartbeat) (stamp : ℕ) (db : Db)
    → IsConsistent db
    → Ensures Kept (heartbeat_attempt r stamp db)
unfolding heartbeat_attempt
heartbeat_attempt-IsConsistent r stamp db h =
    answer (execution r.attempt_id r.worker_id r.fencing_token db) refl
  where
    lost : Ensures Kept (lost_heartbeat r.attempt_id r.worker_id r.fencing_token stamp db)
    lost = lost_heartbeat-IsConsistent r.attempt_id r.worker_id r.fencing_token stamp db h

    answer :
        (o : Option Execution)
        → execution r.attempt_id r.worker_id r.fencing_token db ≡ o
        → Ensures Kept (elim o as (λ x. Result (Directive × Db)) [
          | none ↦ lost_heartbeat r.attempt_id r.worker_id r.fencing_token stamp db
          | some x ↦
              if leb x.lease.expires_at stamp
              then lost_heartbeat r.attempt_id r.worker_id r.fencing_token stamp db
              else live_heartbeat r stamp x db
        ])
    answer none e = lost
    answer (some x) e =
        Ensures-if (leb x.lease.expires_at stamp) _ _ (λ late. lost)
          λ timely.
            live_heartbeat-IsConsistent r stamp x db h
              (execution-Joined r.attempt_id r.worker_id r.fencing_token db x e).attempt_row
