-- ===== src/Gateway/Leasing/Order.antt =====
-- The order in which a worker's tasks are leased, and the tokens that the leases carry.
use vgen.Table.First.{select_first_least}
use vgen.Table.Laws.{IsTable}
use vgen.Gateway.Db.{Db, Task, Attempt}
use vgen.Gateway.Leasing.{Grant, lease, next_task, is_runnable, ok}
use vgen.Gateway.Leasing.Grants.{swept, lease-Granted}
use vgen.Gateway.Tasks.{task_before}
use vgen.Gateway.Safety.{IsConsistent}
use vgen.Base.{◌<◌, ◌≤◌, ◌≡◌, some, true, false, arith, ℕ}
use vgen.Gateway.Safety.Sweeps.{expire_leases-IsConsistent, expire_reservations-IsConsistent}
use vgen.Gateway.Safety.Leases.{selected_task}

pub before_asymmetric : (x y : ℕ × Task) → task_before x y ≡ true → task_before y x ≡ false
before_asymmetric x y e = ground arith

pub before_connected :
    (x y z : ℕ × Task) → task_before x y ≡ false → task_before y z ≡ false → task_before x z ≡ false
before_connected x y z e f = ground arith

pub next_task_least :
    (worker_id stamp : ℕ) (db : Db) (k j : ℕ) (t q : Task)
    → IsTable db.tasks
    → next_task worker_id stamp db ≡ some (k, t)
    → db.tasks.row j ≡ some q
    → is_runnable worker_id stamp q ≡ true
    → task_before (j, q) (k, t) ≡ false
unfolding next_task
next_task_least worker_id stamp db k j t q h e row runs =
    select_first_least task_before (λ _ u. is_runnable worker_id stamp u) before_asymmetric
      before_connected db.tasks k t j q h e row runs

pub swept-IsConsistent : (stamp : ℕ) (db : Db) → IsConsistent db → IsConsistent (swept stamp db)
swept-IsConsistent stamp db h =
    expire_leases-IsConsistent stamp _ (expire_reservations-IsConsistent stamp db h)

-- The order of a worker's queue: the greater priority first, then the earlier creation, then the
-- smaller identifier.
abbrev pub Follows : ℕ × Task → ℕ × Task → Type 0
Follows (j, q) (k, t) =
    (q.priority ≤ t.priority)
    × (q.priority ≡ t.priority → t.created_at ≤ q.created_at)
    × (q.priority ≡ t.priority → q.created_at ≡ t.created_at → k ≤ j)

follows : (x y : ℕ × Task) → task_before x y ≡ false → Follows x y
follows x y e = (ground arith, λ p. ground arith, λ p c. ground arith)

-- From a consistent database, the task of a granted lease comes first among the runnable tasks of the
-- worker: no other has a greater priority, none of the same priority was created earlier, and of
-- those created at the same time it has the smallest identifier.
pub lease_in_order :
    (worker_id ttl stamp : ℕ) (db db' : Db) (g : Grant) (j : ℕ) (q : Task)
    → IsConsistent db
    → lease worker_id ttl stamp db ≡ ok (some g, db')
    → (swept stamp db).tasks.row j ≡ some q
    → is_runnable worker_id stamp q ≡ true
    → (t : Task) × ((swept stamp db).tasks.row g.task_id ≡ some t) × Follows (j, q) (g.task_id, t)
lease_in_order worker_id ttl stamp db db' g j q h e row runs =
    let granted = lease-Granted worker_id ttl stamp db e in
    (
      granted.task,
      (selected_task worker_id stamp g.task_id granted.task (swept stamp db) granted.chosen).0,
      follows (j, q) (g.task_id, granted.task)
          (next_task_least worker_id stamp (swept stamp db) g.task_id j granted.task q
            (swept-IsConsistent stamp db h).tasks_table granted.chosen row runs),
    )

-- From a consistent database, the token of a granted lease is greater than the token of every
-- attempt of the worker.
pub lease_token_greatest :
    (worker_id ttl stamp : ℕ) (db db' : Db) (g : Grant) (k : ℕ) (a : Attempt)
    → IsConsistent db
    → lease worker_id ttl stamp db ≡ ok (some g, db')
    → (swept stamp db).attempts.row k ≡ some a
    → a.worker_id ≡ worker_id
    → a.fencing_token < g.fencing_token
lease_token_greatest worker_id ttl stamp db db' g k a h e row same =
    let granted = lease-Granted worker_id ttl stamp db e in
    ground
      (arith, (swept-IsConsistent stamp db h).tokens_drawn k, granted.worker_row, granted.token)
