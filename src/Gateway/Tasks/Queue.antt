-- ===== src/Gateway/Tasks/Queue.antt =====
-- The position in a worker's queue against the choice of `lease` (src/vgen/gateway/repository.py).
use vgen.Table.First.{select_first-none}
use vgen.Table.Counts.{count_zero}
use vgen.Table.Laws.{IsTable}
use vgen.Gateway.Db.{Db, Task}
use vgen.Gateway.Tasks.{task_queue_position, task_before, is_queued}
use vgen.Gateway.Leasing.{next_task, is_runnable}
use vgen.Gateway.Leasing.Order.{before_asymmetric, before_connected, next_task_least}
use vgen.Gateway.Safety.Leases.{selected_task}
use vgen.Base.{
  ◌&&◌, ◌≡◌, ◌≢◌, ◌∙◌, none, some, inl, inr, true, false, arith, ℕ, eq_null, Option-cases, refl,
  Option, subst,
}

position_one :
    (k j worker_id : ℕ) (t q : Task) (db : Db)
    → IsTable db.tasks
    → t.assigned_worker_id ≡ some worker_id
    → task_queue_position k t db ≡ some 1
    → db.tasks.row j ≡ some q
    → (eq_null q.assigned_worker_id worker_id && is_queued q && task_before (j, q) (k, t)) ≡ false
unfolding task_queue_position
position_one k j worker_id t q db h assigned e row =
    count_zero
      (λ i u. eq_null u.assigned_worker_id worker_id && is_queued u && task_before (i, u) (k, t))
      db.tasks h (ground arith) j q row

next_task-none :
    (worker_id stamp k : ℕ) (t : Task) (db : Db)
    → IsTable db.tasks
    → db.tasks.row k ≡ some t
    → is_runnable worker_id stamp t ≡ true
    → next_task worker_id stamp db ≢ none
unfolding next_task
next_task-none worker_id stamp k t db h row runs e = ground (
  arith,
  select_first-none task_before (λ _ u. is_runnable worker_id stamp u) before_asymmetric
      before_connected db.tasks k t h e row,
)

same_place :
    (k j : ℕ) (t q : Task)
    → task_before (k, t) (j, q) ≡ false
    → task_before (j, q) (k, t) ≡ false
    → k ≡ j
same_place k j t q e f = ground arith

same_entry :
    (k j : ℕ) (t q : Task) → k ≡ j → q ≡ t → ◌≡◌ {A = Option (ℕ × Task)} (some (j, q)) (some (k, t))
same_entry k j t q e f = rw (e, f) refl

-- A task with position 1 that its worker may run is the next task that the worker is given.
pub queue_head_is_next :
    (worker_id stamp k : ℕ) (t : Task) (db : Db)
    → IsTable db.tasks
    → db.tasks.row k ≡ some t
    → task_queue_position k t db ≡ some 1
    → is_runnable worker_id stamp t ≡ true
    → next_task worker_id stamp db ≡ some (k, t)
queue_head_is_next worker_id stamp k t db h row first runs =
    elim (Option-cases (next_task worker_id stamp db)) [
      | inl e ↦ absurd (next_task-none worker_id stamp k t db h row runs e)
      | inr (x, e) ↦ same x.0 x.1 e
    ]
  where
    same :
        (j : ℕ) (q : Task)
        → next_task worker_id stamp db ≡ some (j, q)
        → next_task worker_id stamp db ≡ some (k, t)
    same j q e =
        let s = selected_task worker_id stamp j q db e in
        let assigned : t.assigned_worker_id ≡ some worker_id = ground arith in
        let later = position_one k j worker_id t q db h assigned first s.0 in
        let earlier = next_task_least worker_id stamp db j k q t h e row runs in
        let place = same_place k j t q earlier (ground arith) in
        let row' : db.tasks.row j ≡ some t = subst (λ i. db.tasks.row i ≡ some t) place row in
        e ∙ same_entry k j t q place (ground arith)
