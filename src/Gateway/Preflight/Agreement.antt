-- ===== src/Gateway/Preflight/Agreement.antt =====
-- `preflight_task` foretells what `prepare_task` does (src/vgen/gateway/repository.py).
use vgen.Base.{
  some, [], ◌∷◌, inl, inr, true, false, refl, ◌≡◌, suc, arith, Bool, ℕ, Option, List, Option-cases,
  Bool-cases, ltb, sym, ◌∙◌, if◌then◌else◌, ◌==◌, ◌&&◌, is_some, ==→eq, none,
}
use vgen.Gateway.Prepare.{
  check_consumer, choose, check_consumer, Choice, free, queueing, nobody, PrepareRequest, Prepared,
  reserve_task, reserve_choice, is_queue_candidate, is_candidate, prepare_task, prepare_swept,
  task_candidate, task_queue_candidate, check_principal, or_queue,
}
use vgen.Gateway.Tx.{
  Result, raise, worker_queue_full, rate_not_approved, no_eligible_worker, ◌>>=◌, ◌>>◌,
}
use vgen.Gateway.Preflight.{
  Readiness, Db, ok, Worker, readiness, with_rate, approved_rate, queued_load,
  max_queued_tasks_per_worker, has_online_allocated_worker, has_allocated_worker, preflight_task,
  check_preflight, preflight_candidate, found, pool_not_found, require, check_caller, or_waiting,
  workspace_not_found,
}
use vgen.Table.{exists_key}
use vgen.Gateway.Safety.{IsConsistent}
use vgen.Gateway.Safety.Preparations.{IsRow, choose-IsRow}
use vgen.Gateway.Leasing.Constraints.{token_is_free}
use vgen.Gateway.Safety.Sweeps.{expire_leases-IsConsistent, expire_reservations-IsConsistent}
use vgen.Gateway.Db.{Workspace, Allocation, Pool, PrincipalType}
use vgen.Gateway.Preflight.Organisation.{prepare_swept-SameOrganisation, check_consumer-same}
use vgen.Gateway.Prepare.Sound.{task_queue_candidate_sound, task_candidate_sound}

-- What the answer to a preparation, or its error, says of the queue.
abbrev pub queue_expected_of : Result (Prepared × Db) → Result Bool
queue_expected_of (ok (p, db)) = ok p.queue_expected
queue_expected_of (raise fault) = raise fault

abbrev pub foretold : Readiness → Result Bool
foretold Readiness.ready = ok false
foretold Readiness.queue_available = ok true
foretold Readiness.queue_full = raise worker_queue_full
foretold Readiness.rate_missing = raise rate_not_approved
foretold _ = raise no_eligible_worker

pub exists_key_mono :
    {A : Type 0} (p r : ℕ → A → Bool) (row : ℕ → Option A) (ks : List ℕ)
    → ((k : ℕ) (a : A) → row k ≡ some a → p k a ≡ true → r k a ≡ true)
    → exists_key p row ks ≡ true
    → exists_key r row ks ≡ true
unfolding exists_key
exists_key_mono p r row [] f h = h
exists_key_mono p r row (k ∷ ks) f h = elim (Option-cases (row k)) [
  | inl e ↦ ground (arith, exists_key_mono p r row ks f)
  | inr (a, e) ↦ ground (arith, exists_key_mono p r row ks f, f k a e)
]

module _ (q : PrepareRequest) (key_version stamp : ℕ) (db : Db) (h : IsConsistent db) where
  reserve_task-queue :
      (queued : Bool) (state : Readiness) (x : ℕ × Worker)
      → db.workers.row x.0 ≡ some x.1
      → foretold state ≡ ok queued
      → queue_expected_of (reserve_task q key_version queued x stamp db)
        ≡ foretold (with_rate (approved_rate x.0 q.workspace_id db) state)
  unfolding reserve_task
  reserve_task-queue queued state x row e =
      elim (Option-cases (approved_rate x.0 q.workspace_id db)) [
        | inl missing ↦ rw missing refl
        | inr (card, there) ↦ rw (there, token_is_free x.0 (suc db.fresh) x.1 db h row) (sym e)
      ]

  reserve_choice-queue :
      (c : Choice)
      → IsRow q key_version stamp db h c
      → queue_expected_of (reserve_choice q key_version stamp c db)
        ≡ foretold (readiness q stamp c db)
  unfolding reserve_choice readiness
  reserve_choice-queue (free x) row = reserve_task-queue false Readiness.ready x row refl
  reserve_choice-queue (queueing x) row =
      elim (Bool-cases (ltb (queued_load x.0 db) max_queued_tasks_per_worker)) [
        | inl room ↦ rw room (reserve_task-queue true Readiness.queue_available x row refl)
        | inr full ↦ rw full refl
      ]
  reserve_choice-queue nobody row =
      elim (Bool-cases (has_online_allocated_worker q.pool_id stamp db)) [
        | inl online ↦ rw online refl
        | inr offline ↦ rw offline refl
      ]

  allocated_of_queue_candidate :
      (x : ℕ × Worker)
      → db.workers.row x.0 ≡ some x.1
      → is_queue_candidate q.pool_id q.executor_type stamp db x.0 x.1 ≡ true
      → has_allocated_worker q.pool_id db ≡ true
  unfolding is_queue_candidate has_allocated_worker
  allocated_of_queue_candidate x row fits =
      exists_key_mono
        (λ _ a. a.worker_id == x.0 && a.pool_id == q.pool_id && a.active && a.is_proven)
        (λ _ a.
          a.pool_id == q.pool_id && a.active && a.is_proven && is_some (db.workers.row a.worker_id))
        db.allocations.row db.allocations.keys there (ground arith)
    where
      there :
          (k : ℕ) (a : Allocation)
          → db.allocations.row k ≡ some a
          → (a.worker_id == x.0 && a.pool_id == q.pool_id && a.active && a.is_proven) ≡ true
          → (a.pool_id == q.pool_id
              && a.active
              && a.is_proven
              && is_some (db.workers.row a.worker_id))
            ≡ true
      there k a e p = rw (==→eq a.worker_id x.0 (ground arith), row) (ground arith)

  queue_candidate_of_candidate :
      (k : ℕ) (w : Worker)
      → is_candidate q.pool_id q.executor_type stamp db k w ≡ true
      → is_queue_candidate q.pool_id q.executor_type stamp db k w ≡ true
  unfolding is_candidate
  queue_candidate_of_candidate k w fits = ground arith

  choose-nobody :
      (matches : ℕ → Worker → Bool)
      → has_allocated_worker q.pool_id db ≡ false
      → choose matches q stamp db ≡ nobody
  unfolding choose
  choose-nobody matches none_ =
      elim (Option-cases (task_candidate matches q.pool_id q.executor_type stamp db)) [
        | inl e ↦
            elim (Option-cases (task_queue_candidate matches q.pool_id q.executor_type stamp db)) [
              | inl f ↦ rw (e, f) refl
              | inr (x, f) ↦
                  let s =
                    task_queue_candidate_sound matches q.pool_id q.executor_type stamp db x f in
                  ground (arith, none_, allocated_of_queue_candidate x s.0.0 s.0.1)
            ]
        | inr (x, e) ↦
            let s = task_candidate_sound matches q.pool_id q.executor_type stamp db x e in
            ground (
              arith,
              none_,
              allocated_of_queue_candidate x s.0.0 (queue_candidate_of_candidate x.0 x.1 s.0.1),
            )
      ]

  preflight_choice :
      (matches : ℕ → Worker → Bool)
      → queue_expected_of (reserve_choice q key_version stamp (choose matches q stamp db) db)
        ≡ foretold (
            if has_allocated_worker q.pool_id db
            then readiness q stamp (choose matches q stamp db) db
            else Readiness.no_allocated_worker)
  unfolding reserve_choice
  preflight_choice matches = elim (Bool-cases (has_allocated_worker q.pool_id db)) [
    | inl there ↦ rw there (
        reserve_choice-queue (choose matches q stamp db)
          (choose-IsRow q key_version stamp db h matches))
    | inr none_ ↦ rw (none_, choose-nobody matches none_) refl
  ]

abbrev pub foretold_answer : Result Readiness → Result Bool
foretold_answer (ok state) = foretold state
foretold_answer (raise fault) = raise fault

foretold-if :
    (b : Bool) (x y : Readiness)
    → foretold_answer (if b then ok x else ok y) ≡ foretold (if b then x else y)
foretold-if true x y = refl
foretold-if false x y = refl

check_caller-eq :
    (q : PrepareRequest) (db : Db) (t : PrincipalType)
    → check_caller q db t ≡ check_principal q db t
unfolding check_caller check_principal
check_caller-eq q db PrincipalType.service = refl
check_caller-eq q db PrincipalType.device = refl

-- A last check and the workspace, of which the preflight needs nothing.
checked : {A : Type 0} (m : Result (Unit {0})) (w : A) → m ≡ (m >>= (λ _. ok w) >>= λ _. ok tt)
checked (ok tt) w = refl
checked (raise fault) w = refl

check_preflight-eq :
    (q : PrepareRequest) (db : Db) → check_preflight q db ≡ (check_consumer q db >>= λ _. ok tt)
unfolding check_preflight check_consumer
check_preflight-eq q db = rw (check_caller-eq q db q.principal.principal_type) (
    go (check_principal q db q.principal.principal_type) (db.workspaces.row q.workspace_id)
      (db.pools.row q.pool_id))
  where
    go :
        (m : Result (Unit {0})) (o : Option Workspace) (p : Option Pool)
        → (m
            >> (found o workspace_not_found >>= λ w.
                require w.active workspace_not_found
                >> (found p pool_not_found >>= λ v.
                    require (v.workspace_id == q.workspace_id && v.active) pool_not_found)))
          ≡ (m
              >> (found o workspace_not_found >>= λ w.
                  require w.active workspace_not_found
                  >> (found p pool_not_found >>= λ v.
                      require (v.workspace_id == q.workspace_id && v.active) pool_not_found
                      >> ok w))
              >>= λ _. ok tt)
    go (raise fault) o p = refl
    go (ok tt) none p = refl
    go (ok tt) (some w) p = open_workspace (require w.active workspace_not_found) w p
      where
        open_workspace :
            (m : Result (Unit {0})) (w : Workspace) (p : Option Pool)
            → (m
                >> (found p pool_not_found >>= λ v.
                    require (v.workspace_id == q.workspace_id && v.active) pool_not_found))
              ≡ (m
                  >> (found p pool_not_found >>= λ v.
                      require (v.workspace_id == q.workspace_id && v.active) pool_not_found >> ok w)
                  >>= λ _. ok tt)
        open_workspace (raise fault) w p = refl
        open_workspace (ok tt) w none = refl
        open_workspace (ok tt) w (some v) = checked _ w

preflight_candidate-choose :
    (matches : ℕ → Worker → Bool) (q : PrepareRequest) (stamp : ℕ) (db : Db)
    → preflight_candidate matches q stamp db ≡ choose matches q stamp db
unfolding preflight_candidate choose
preflight_candidate-choose matches q stamp db =
    same_choice (task_candidate matches q.pool_id q.executor_type stamp db)
      (task_queue_candidate matches q.pool_id q.executor_type stamp db)
  where
    same_choice : (x y : Option (ℕ × Worker)) → or_waiting x y ≡ or_queue x y
    same_choice (some x) y = refl
    same_choice none (some y) = refl
    same_choice none none = refl

-- From a consistent database, a preparation gives what a preflight on the database that its sweeps
-- leave foretells: after ready it is answered and expects no queue, after queue_available it is
-- answered and expects one; after queue_full it fails with WORKER_QUEUE_FULL, after rate_missing with
-- RATE_NOT_APPROVED, and after no_allocated_worker, capability_mismatch or worker_offline_or_busy with
-- NO_ELIGIBLE_WORKER; an error of the preflight's checks is the preparation's error.
pub preflight_foretells :
    (matches : Db → ℕ → Worker → PrepareRequest → Bool) (q : PrepareRequest) (stamp : ℕ) (db : Db)
    → IsConsistent db
    → queue_expected_of (prepare_task matches q stamp db)
      ≡ foretold_answer (preflight_task matches q stamp (prepare_swept stamp db))
unfolding prepare_task preflight_task
preflight_foretells matches q stamp db h =
    rw
      (
        check_preflight-eq q (prepare_swept stamp db),
        check_consumer-same q (prepare_swept-SameOrganisation stamp db),
        preflight_candidate-choose (λ k w. matches (prepare_swept stamp db) k w q) q stamp
            (prepare_swept stamp db),
      )
      (agree (check_consumer q db))
  where
    agree :
        (m : Result Workspace)
        → queue_expected_of (
            m >>= λ workspace.
            reserve_choice q workspace.key_version stamp
              (choose
                (λ k w. matches (prepare_swept stamp db) k w q)
                q
                stamp
                (prepare_swept stamp db))
              (prepare_swept stamp db))
          ≡ foretold_answer (
              (m >>= λ _. ok tt) >>= λ _.
              if has_allocated_worker q.pool_id (prepare_swept stamp db)
              then ok (
                  readiness q stamp
                    (choose
                      (λ k w. matches (prepare_swept stamp db) k w q)
                      q
                      stamp
                      (prepare_swept stamp db))
                    (prepare_swept stamp db))
              else ok Readiness.no_allocated_worker)
    agree (ok workspace) =
        preflight_choice q workspace.key_version stamp _
          (expire_leases-IsConsistent stamp _ (expire_reservations-IsConsistent stamp db h))
          (λ k w. matches (prepare_swept stamp db) k w q)
        ∙ sym (foretold-if (has_allocated_worker q.pool_id (prepare_swept stamp db)) _ _)
    agree (raise fault) = refl
