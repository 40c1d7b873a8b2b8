-- ===== src/Gateway/Prepare/Sound.antt =====
-- The worker that is chosen for a task is a row that fits it (`_task_candidate_rows` and
-- `_task_queue_candidate_rows` of src/vgen/gateway/repository.py).
use vgen.Gateway.Prepare.{
  is_candidate, is_queue_candidate, queue_before, task_candidate, task_queue_candidate, Worker, Db,
  worker_before,
}
use vgen.Base.{◌≡◌, some, true, Bool, ℕ, String}
use vgen.Gateway.Rekey.Selection.{first_match_sound}

module _ (matches : ℕ → Worker → Bool) (pool_id : ℕ) (executor_type : String) (stamp : ℕ) (db : Db)
    (x : ℕ × Worker) where
  pub task_candidate_sound :
      task_candidate matches pool_id executor_type stamp db ≡ some x
      → ((db.workers.row x.0 ≡ some x.1)
          × (is_candidate pool_id executor_type stamp db x.0 x.1 ≡ true))
        × (matches x.0 x.1 ≡ true)
  unfolding task_candidate
  task_candidate_sound e =
      first_match_sound matches worker_before (is_candidate pool_id executor_type stamp db)
        db.workers x e

  pub task_queue_candidate_sound :
      task_queue_candidate matches pool_id executor_type stamp db ≡ some x
      → ((db.workers.row x.0 ≡ some x.1)
          × (is_queue_candidate pool_id executor_type stamp db x.0 x.1 ≡ true))
        × (matches x.0 x.1 ≡ true)
  unfolding task_queue_candidate
  task_queue_candidate_sound e =
      first_match_sound matches (queue_before db)
        (is_queue_candidate pool_id executor_type stamp db) db.workers x e
