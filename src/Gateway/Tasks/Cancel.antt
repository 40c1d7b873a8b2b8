-- ===== src/Gateway/Tasks/Cancel.antt =====
-- The effect of `cancel_task` (src/vgen/gateway/repository.py) on a task and on its attempts.
use vgen.Gateway.Db.{Db, Task, Attempt, Responsibility}
use vgen.Gateway.Tasks.{
  cancel_task, store_cancel, is_final, attempt_in, TaskState, AttemptState, ok, task_not_found,
  task_in,
}
use vgen.Gateway.Access.{
  Principal, require_task_consumer, require_service, require_member, membership,
}
use vgen.Base.{
  [], ◌∷◌, ◌≡◌, ◌⊎◌, some, inl, inr, true, false, refl, arith, ℕ, test, ◌∙◌, subst, sym,
}
use vgen.Gateway.Tx.{Ensures, Ensures-found, Ensures-bind, Ensures-if, Ensures-at, Ensures-ok}

-- What has become of an attempt of a cancelled task, and of its lease.
abbrev pub Spared : ℕ → Db → Db → ℕ → Attempt → Type 0
Spared stamp db db' k a =
    (attempt_in a.state (AttemptState.reserved ∷ AttemptState.leased ∷ []) ≡ true
      → db'.attempts.row k
        ≡ some (record a {
          state = AttemptState.cancelled;
          responsibility = some Responsibility.consumer;
          finished_at = some stamp;
        }))
    × (attempt_in a.state (AttemptState.reserved ∷ AttemptState.leased ∷ []) ≡ false
        → db'.attempts.row k ≡ some a)

abbrev Cancels : ℕ → ℕ → Db → TaskState → Db → Type 0
Cancels task_id stamp db state db' =
    (t : Task) × (db.tasks.row task_id ≡ some t)
    × (((is_final t.state ≡ true) × (state ≡ t.state) × (db' ≡ db))
        ⊎ ((is_final t.state ≡ false)
            × (state ≡ TaskState.cancelled)
            × (db' ≡ store_cancel task_id stamp db)))

cancel_task-Cancels :
    (task_id : ℕ) (p : Principal) (stamp : ℕ) (db : Db)
    → Ensures (Cancels task_id stamp db) (cancel_task task_id p stamp db)
unfolding cancel_task
cancel_task-Cancels task_id p stamp db =
    Ensures-found (db.tasks.row task_id) task_not_found _ λ t row.
      Ensures-bind (require_task_consumer db t p true) _ λ allowed a.
        Ensures-if (is_final t.state) _ _
          (λ over. Ensures-ok t.state db (t, row, inl (over, refl, refl)))
          λ going. Ensures-ok TaskState.cancelled _ (t, row, inr (going, refl, refl))

store_cancel-Spared :
    (task_id stamp : ℕ) (db : Db) (k : ℕ) (a : Attempt)
    → db.attempts.row k ≡ some a
    → a.task_id ≡ task_id
    → Spared stamp db (store_cancel task_id stamp db) k a
unfolding store_cancel
store_cancel-Spared task_id stamp db k a row mine =
    ((λ waiting. ground arith), λ started. ground arith)

-- A cancellation that is let through, of a task that is not over, ends its attempts that were only
-- reserved or leased, as the consumer's, and leaves every other attempt of the task as it is, a
-- running one too; the task is cancelled.
pub cancel_spares_running :
    (task_id : ℕ) (p : Principal) (stamp : ℕ) (db db' : Db) (t : Task) (state : TaskState) (k : ℕ)
    (a : Attempt)
    → cancel_task task_id p stamp db ≡ ok (state, db')
    → db.tasks.row task_id ≡ some t
    → is_final t.state ≡ false
    → db.attempts.row k ≡ some a
    → a.task_id ≡ task_id
    → (state ≡ TaskState.cancelled)
      × (test (λ u. task_in u.state (TaskState.cancelled ∷ [])) (db'.tasks.row task_id) ≡ true)
      × Spared stamp db db' k a
unfolding store_cancel
cancel_spares_running task_id p stamp db db' t state k a e row going arow mine =
    outcome (Ensures-at (cancel_task task_id p stamp db) e (cancel_task-Cancels task_id p stamp db))
  where
    outcome :
        Cancels task_id stamp db state db'
        → (state ≡ TaskState.cancelled)
          × (test (λ u. task_in u.state (TaskState.cancelled ∷ [])) (db'.tasks.row task_id) ≡ true)
          × Spared stamp db db' k a
    outcome (u, urow, inl (over, s, d)) = ground arith
    outcome (u, urow, inr (still, s, d)) = (
      s,
      rw d (ground arith),
      subst (λ x. Spared stamp db x k a) (sym d)
          (store_cancel-Spared task_id stamp db k a arow mine),
    )

store_cancel-consumer :
    (task_id stamp : ℕ) (db : Db) (t : Task) (p : Principal)
    → require_task_consumer
        (store_cancel task_id stamp db)
        (record t { state = TaskState.cancelled; finished_at = some stamp; updated_at = stamp })
        p
        true
      ≡ require_task_consumer db t p true
unfolding store_cancel require_task_consumer require_service require_member membership
store_cancel-consumer task_id stamp db t p = refl

store_cancel-task :
    (task_id stamp : ℕ) (db : Db) (t : Task)
    → db.tasks.row task_id ≡ some t
    → (store_cancel task_id stamp db).tasks.row task_id
      ≡ some
          (record t { state = TaskState.cancelled; finished_at = some stamp; updated_at = stamp })
unfolding store_cancel
store_cancel-task task_id stamp db t row = ground arith

cancel_again :
    (task_id : ℕ) (p : Principal) (stamp later : ℕ) (db : Db)
    → Ensures (λ s d. cancel_task task_id p later d ≡ ok (s, d)) (cancel_task task_id p stamp db)
unfolding cancel_task
cancel_again task_id p stamp later db =
    Ensures-found (db.tasks.row task_id) task_not_found _ λ t row.
      Ensures-bind (require_task_consumer db t p true) _ λ allowed a.
        Ensures-if (is_final t.state) _ _ (λ over. Ensures-ok t.state db (rw (row, a, over) refl))
          λ going. Ensures-ok TaskState.cancelled _ (
            rw
              (
                store_cancel-task task_id stamp db t row,
                store_cancel-consumer task_id stamp db t p ∙ a,
              )
              refl)

-- A cancellation that was let through is let through again, at any time: the answer is the same, and
-- the second one changes nothing.
pub cancel_twice :
    (task_id : ℕ) (p : Principal) (stamp later : ℕ) (db db' : Db) (state : TaskState)
    → cancel_task task_id p stamp db ≡ ok (state, db')
    → cancel_task task_id p later db' ≡ ok (state, db')
cancel_twice task_id p stamp later db db' state e =
    Ensures-at {Q = λ s d. cancel_task task_id p later d ≡ ok (s, d)}
      (cancel_task task_id p stamp db) e (cancel_again task_id p stamp later db)
