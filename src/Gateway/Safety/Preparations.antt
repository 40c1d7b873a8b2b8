-- ===== src/Gateway/Safety/Preparations.antt =====
-- A prepared task keeps the database consistent (`prepare_task` of src/vgen/gateway/repository.py):
-- its attempt is reserved under the next token of the worker.
use vgen.Gateway.Prepare.{
  PrepareRequest, Choice, free, queueing, nobody, choose, task_candidate, task_queue_candidate,
  or_queue, reserve_task, reserve_choice, store_prepared, prepare_task, prepare_swept,
  check_consumer, queued_load, max_queued_tasks_per_worker,
}
use vgen.Base.{◌+◌, ◌≡◌, none, some, true, false, suc, refl, arith, ℕ, Bool, Option, ltb, not}
use vgen.Gateway.Db.{Worker, Db}
use vgen.Gateway.Safety.{IsConsistent}
use vgen.Table.Laws.{IsTable-insert}
use vgen.Gateway.Tx.{
  Ensures, Ensures-found, Ensures-require, rate_not_approved, Ensures-bind, worker_queue_full,
  integrity_error, Ensures-raise, Ensures-ok, no_eligible_worker,
}
use vgen.Gateway.Prepare.Sound.{task_candidate_sound, task_queue_candidate_sound}
use vgen.Gateway.Safety.Leases.{Kept}
use vgen.Gateway.Safety.Sweeps.{expire_leases-IsConsistent, expire_reservations-IsConsistent}
use vgen.Gateway.Rekey.{approved_rate}
use vgen.Gateway.Leasing.{token_is_taken}
use vgen.Gateway.Safety.Retries.{tasks_free, attempts_free, leases_free}

module _ (q : PrepareRequest) (key_version worker_id stamp : ℕ) (w : Worker) (db : Db)
    (h : IsConsistent db) (worker_row : db.workers.row worker_id ≡ some w)
    (free_task : db.tasks.row db.fresh ≡ none)
    (free_attempt : db.attempts.row (suc db.fresh) ≡ none)
    (unleased : db.leases.row (suc db.fresh) ≡ none) where
  store_prepared-IsConsistent :
      IsConsistent (store_prepared q key_version worker_id (w.fencing_counter + 1) stamp db)
  unfolding store_prepared
  store_prepared-IsConsistent = record {
    leases_table = h.leases_table;
    attempts_table = IsTable-insert (suc db.fresh) _ db.attempts free_attempt h.attempts_table;
    tasks_table = IsTable-insert db.fresh _ db.tasks free_task h.tasks_table;
    tasks_agree = λ k. ground (arith, h.tasks_agree k, free_task);
    leases_agree = λ k. ground (arith, h.leases_agree k, unleased);
    tokens_drawn = λ k. ground (arith, h.tokens_drawn k);
    leases_fenced = λ k. ground (arith, h.leases_fenced k, unleased);
    live_unique = λ j k. ground (arith, h.live_unique j k);
    not_started = λ k. ground (arith, h.not_started k);
    workers_agree = λ k. ground (arith, h.workers_agree k, h.tasks_agree k);
    attempts_drawn = λ k. ground (arith, h.attempts_drawn k);
    tasks_drawn = λ k. ground (arith, h.tasks_drawn k);
    leases_drawn = λ k. ground (arith, h.leases_drawn k);
    tokens_unique = λ j k. ground (arith, h.tokens_unique j k, h.tokens_drawn j, h.tokens_drawn k);
  }

module _ (q : PrepareRequest) (key_version stamp : ℕ) (db : Db) (h : IsConsistent db) where
  reserve_task-IsConsistent :
      (queued : Bool) (x : ℕ × Worker)
      → db.workers.row x.0 ≡ some x.1
      → Ensures Kept (reserve_task q key_version queued x stamp db)
  unfolding reserve_task
  reserve_task-IsConsistent queued x row =
      Ensures-found (approved_rate x.0 q.workspace_id db) rate_not_approved _ λ card r.
        Ensures-require (not (token_is_taken x.0 (x.1.fencing_counter + 1) (suc db.fresh) db))
          integrity_error _
          λ unused. Ensures-ok _ _ (
            store_prepared-IsConsistent q key_version x.0 stamp x.1 db h row
              (tasks_free db h db.fresh (omega arith))
              (attempts_free db h (suc db.fresh) (omega arith))
              (leases_free db h (suc db.fresh) (omega arith)))

  -- The chosen worker has a row.
  abbrev pub IsRow : Choice → Type 0
  IsRow (free x) = db.workers.row x.0 ≡ some x.1
  IsRow (queueing x) = db.workers.row x.0 ≡ some x.1
  IsRow nobody = Unit

  reserve_choice-IsConsistent :
      (c : Choice) → IsRow c → Ensures Kept (reserve_choice q key_version stamp c db)
  unfolding reserve_choice
  reserve_choice-IsConsistent (free x) row = reserve_task-IsConsistent false x row
  reserve_choice-IsConsistent (queueing x) row =
      Ensures-require (ltb (queued_load x.0 db) max_queued_tasks_per_worker) worker_queue_full _
        λ room. reserve_task-IsConsistent true x row
  reserve_choice-IsConsistent nobody row = Ensures-raise no_eligible_worker

  or_queue-IsRow :
      (o p : Option (ℕ × Worker))
      → ((x : ℕ × Worker) → o ≡ some x → db.workers.row x.0 ≡ some x.1)
      → ((x : ℕ × Worker) → p ≡ some x → db.workers.row x.0 ≡ some x.1)
      → IsRow (or_queue o p)
  or_queue-IsRow (some x) p f g = f x refl
  or_queue-IsRow none (some x) f g = g x refl
  or_queue-IsRow none none f g = tt

  pub choose-IsRow : (matches : ℕ → Worker → Bool) → IsRow (choose matches q stamp db)
  unfolding choose
  choose-IsRow matches =
      or_queue-IsRow (task_candidate matches q.pool_id q.executor_type stamp db)
        (task_queue_candidate matches q.pool_id q.executor_type stamp db)
        (λ x e. (task_candidate_sound matches q.pool_id q.executor_type stamp db x e).0.0)
        (λ x e. (task_queue_candidate_sound matches q.pool_id q.executor_type stamp db x e).0.0)

pub prepare_task-IsConsistent :
    (matches : Db → ℕ → Worker → PrepareRequest → Bool) (q : PrepareRequest) (stamp : ℕ) (db : Db)
    → IsConsistent db
    → Ensures Kept (prepare_task matches q stamp db)
unfolding prepare_task
prepare_task-IsConsistent matches q stamp db h =
    let swept = prepare_swept stamp db in
    let kept = expire_leases-IsConsistent stamp _ (expire_reservations-IsConsistent stamp db h) in
    Ensures-bind (check_consumer q db) _ λ workspace e.
      reserve_choice-IsConsistent q workspace.key_version stamp swept kept
        (choose (λ k w. matches swept k w q) q stamp swept)
        (choose-IsRow q workspace.key_version stamp swept kept (λ k w. matches swept k w q))
