-- ===== src/Gateway/Safety/Releases.antt =====
-- Taking back the queue, the reservations and the attempts of a departing worker keeps the scheduling
-- database consistent (the statements of `leave_worker` of src/vgen/gateway/repository.py).
use vgen.Base.{
  [], ◌∷◌, none, some, true, false, inl, inr, refl, arith, ◌≡◌, ℕ, ◌&&◌, ◌⊎◌, Bool, test,
  Option-cases, Bool-cases, if◌then◌else◌,
}
use vgen.Gateway.Workers.{
  expire_prepared, waits_for, release_queue, release_all, is_prepared_for, worker_draining_code,
}
use vgen.Gateway.Db.{Db, Task, Attempt, Responsibility}
use vgen.Gateway.Safety.{
  IsConsistent, task_in, TaskState, fine, task_agrees, attempt_in, is_live, AttemptState, pairwise,
  one_live, one_token,
}
use vgen.Table.Laws.{IsTable-kept}
use vgen.Table.{update_where}

-- Attempts that end do not make two live attempts of a task.
live_unique-ended :
    (p : ℕ → Attempt → Bool) (f : Attempt → Attempt) (db db' : Db)
    → db'.attempts ≡ update_where p f db.attempts
    → ((a : Attempt) → is_live (f a).state ≡ false)
    → ((j k : ℕ) → pairwise one_live db j k ≡ true)
    → (j k : ℕ) → pairwise one_live db' j k ≡ true
live_unique-ended p f db db' e ended h j k = rw e (elim (Option-cases (db.attempts.row j)) [
  | inl m ↦ rw m refl
  | inr (a, m) ↦ elim (Option-cases (db.attempts.row k)) [
    | inl n ↦ rw (m, n) refl
    | inr (b, n) ↦ elim (Bool-cases (p j a)) [
      | inl hit ↦ rw (m, n, hit, ended a) refl
      | inr miss ↦ elim (Bool-cases (p k b)) [
        | inl hit ↦ rw (m, n, miss, hit, ended b) (ground arith)
        | inr skip ↦ rw (m, n, miss, skip) (rw (m, n) at (h j k))
      ]
    ]
  ]
])

-- An update of attempts that keeps workers and tokens.
tokens_unique-kept :
    (p : ℕ → Attempt → Bool) (f : Attempt → Attempt) (db db' : Db)
    → db'.attempts ≡ update_where p f db.attempts
    → ((a : Attempt) → (f a).worker_id ≡ a.worker_id)
    → ((a : Attempt) → (f a).fencing_token ≡ a.fencing_token)
    → ((j k : ℕ) → pairwise one_token db j k ≡ true)
    → (j k : ℕ) → pairwise one_token db' j k ≡ true
tokens_unique-kept p f db db' e ws ts h j k = rw e (elim (Option-cases (db.attempts.row j)) [
  | inl m ↦ rw m refl
  | inr (a, m) ↦ elim (Option-cases (db.attempts.row k)) [
    | inl n ↦ rw (m, n) refl
    | inr (b, n) ↦
        rw (m, n)
          (rw
            (
              kept_worker (p j a) a,
              kept_worker (p k b) b,
              kept_token (p j a) a,
              kept_token (p k b) b,
            )
            (rw (m, n) at (h j k)))
  ]
])
  where
    kept_worker : (c : Bool) (a : Attempt) → (if c then f a else a).worker_id ≡ a.worker_id
    kept_worker true a = ws a
    kept_worker false a = refl

    kept_token : (c : Bool) (a : Attempt) → (if c then f a else a).fencing_token ≡ a.fencing_token
    kept_token true a = ts a
    kept_token false a = refl

module _ (worker_id stamp : ℕ) (db : Db) (h : IsConsistent db) where
  pub expire_prepared-IsConsistent : IsConsistent (expire_prepared worker_id stamp db)
  unfolding expire_prepared
  expire_prepared-IsConsistent = record {
    leases_table = h.leases_table;
    attempts_table = IsTable-kept h.attempts_table refl (λ k. ground arith);
    tasks_table = IsTable-kept h.tasks_table refl (λ k. ground arith);
    tasks_agree = λ k. ground (arith, h.tasks_agree k);
    leases_agree = λ k. ground (arith, h.leases_agree k);
    tokens_drawn = λ k. ground (arith, h.tokens_drawn k);
    leases_fenced = λ k. ground (arith, h.leases_fenced k);
    live_unique =
        live_unique-ended
          (λ _ a.
            test (is_prepared_for worker_id) (db.tasks.row a.task_id)
            && attempt_in a.state (AttemptState.reserved ∷ []))
          (λ a. record a { state = AttemptState.expired; finished_at = some stamp }) db
          (expire_prepared worker_id stamp db) refl (λ a. refl) h.live_unique;
    not_started = λ k. ground (arith, h.not_started k);
    workers_agree = λ k. ground (arith, h.workers_agree k);
    attempts_drawn = λ k. ground (arith, h.attempts_drawn k);
    tasks_drawn = λ k. ground (arith, h.tasks_drawn k);
    leases_drawn = λ k. ground (arith, h.leases_drawn k);
    tokens_unique =
        tokens_unique-kept
          (λ _ a.
            test (is_prepared_for worker_id) (db.tasks.row a.task_id)
            && attempt_in a.state (AttemptState.reserved ∷ []))
          (λ a. record a { state = AttemptState.expired; finished_at = some stamp }) db
          (expire_prepared worker_id stamp db) refl (λ a. refl) (λ a. refl) h.tokens_unique;
  }

  -- A task of a queue is not one that a live attempt belongs to.
  waits_for-idle :
      (k : ℕ) (t : Task)
      → waits_for worker_id db k t ≡ true
      → task_in t.state (TaskState.committed ∷ TaskState.queued ∷ TaskState.rekey_required ∷ [])
        ≡ true
  unfolding waits_for
  waits_for-idle k t e = ground arith

  pub release_queue-IsConsistent : IsConsistent (release_queue worker_id stamp db)
  unfolding release_queue
  release_queue-IsConsistent = record {
    leases_table = h.leases_table;
    attempts_table = IsTable-kept h.attempts_table refl (λ k. ground arith);
    tasks_table = IsTable-kept h.tasks_table refl (λ k. ground arith);
    tasks_agree = λ k. agree k (Option-cases (db.attempts.row k));
    leases_agree = λ k. ground (arith, h.leases_agree k);
    tokens_drawn = λ k. ground (arith, h.tokens_drawn k);
    leases_fenced = λ k. ground (arith, h.leases_fenced k);
    live_unique =
        live_unique-ended
          (λ _ a.
            test (waits_for worker_id db a.task_id) (db.tasks.row a.task_id)
            && attempt_in a.state (AttemptState.reserved ∷ []))
          (λ a. record a {
            state = AttemptState.cancelled;
            responsibility = some Responsibility.provider;
            failure_code = some worker_draining_code;
            finished_at = some stamp;
          })
          db (release_queue worker_id stamp db) refl (λ a. refl) h.live_unique;
    not_started = λ k. ground (arith, h.not_started k);
    workers_agree = λ k. ground (arith, h.workers_agree k);
    attempts_drawn = λ k. ground (arith, h.attempts_drawn k);
    tasks_drawn = λ k. ground (arith, h.tasks_drawn k);
    leases_drawn = λ k. ground (arith, h.leases_drawn k);
    tokens_unique =
        tokens_unique-kept
          (λ _ a.
            test (waits_for worker_id db a.task_id) (db.tasks.row a.task_id)
            && attempt_in a.state (AttemptState.reserved ∷ []))
          (λ a. record a {
            state = AttemptState.cancelled;
            responsibility = some Responsibility.provider;
            failure_code = some worker_draining_code;
            finished_at = some stamp;
          })
          db (release_queue worker_id stamp db) refl (λ a. refl) (λ a. refl) h.tokens_unique;
  }
    where
      agree :
          (k : ℕ)
          → (db.attempts.row k ≡ none) ⊎ ((a : Attempt) × (db.attempts.row k ≡ some a))
          → fine
              (task_agrees (release_queue worker_id stamp db) k)
              ((release_queue worker_id stamp db).attempts.row k)
            ≡ true
      agree k (inl e) = rw e refl
      agree k (inr (a, e)) = elim (Option-cases (db.tasks.row a.task_id)) [
        | inl m ↦ ground (arith, h.tasks_agree k)
        | inr (t, m) ↦ ground (arith, h.tasks_agree k, waits_for-idle a.task_id t)
      ]

  pub release_all-IsConsistent : IsConsistent (release_all worker_id stamp db)
  unfolding release_all
  release_all-IsConsistent = record {
    leases_table = IsTable-kept h.leases_table refl (λ k. ground arith);
    attempts_table = IsTable-kept h.attempts_table refl (λ k. ground arith);
    tasks_table = IsTable-kept h.tasks_table refl (λ k. ground arith);
    tasks_agree = λ k. ground (arith, h.tasks_agree k, h.workers_agree k);
    leases_agree = λ k. ground (arith, h.leases_agree k, h.leases_fenced k);
    tokens_drawn = λ k. ground (arith, h.tokens_drawn k);
    leases_fenced = λ k. ground (arith, h.leases_fenced k);
    live_unique = λ j k. ground (arith, h.live_unique j k);
    not_started = λ k. ground (arith, h.not_started k);
    workers_agree = λ k. ground (arith, h.workers_agree k);
    attempts_drawn = λ k. ground (arith, h.attempts_drawn k);
    tasks_drawn = λ k. ground (arith, h.tasks_drawn k);
    leases_drawn = λ k. ground (arith, h.leases_drawn k);
    tokens_unique = λ j k. ground (arith, h.tokens_unique j k);
  }
