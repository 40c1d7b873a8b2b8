-- ===== src/Gateway/Jobs/Exclusive.antt =====
-- A worker that holds a maintenance job is given no task (`claim_worker_maintenance` and `lease` of
-- src/vgen/gateway/repository.py).
use vgen.Table.Laws.{IsTable, IsTable-kept}
use vgen.Table.Select.{select_first_sound}
use vgen.Table.Counts.{exists_false}
use vgen.Gateway.Db.{Db, Job, JobKind, Attempt, WorkerStatus}
use vgen.Gateway.Sweep.{
  expire_lease, expire_each, expire_leases, release_expired, finalize_drained_workers,
  expire_reservations, is_executing, is_lease_expired,
}
use vgen.Gateway.Expiry.{expire_maintenance_jobs}
use vgen.Gateway.Safety.Sweeps.{enqueue-eq}
use vgen.Gateway.Leasing.{lease, has_maintenance, blocks_tasks, Grant}
use vgen.Gateway.Leasing.Grants.{swept, lease-Granted}
use vgen.Gateway.Jobs.{
  Claim, claim_worker_maintenance, claim_job, claim_held, claim_queued, claim_swept, held_job,
  queued_job, has_live_attempt, renew_job, lease_job, allows, job_before, exists_where, ok,
  is_action_list, known_actions, maintenance_actions_invalid, worker_not_found, is_status,
  worker_draining, worker_offline,
}
use vgen.Base.{
  [], ◌∷◌, ◌==◌, ◌&&◌, ◌≡◌, ◌∙◌, none, some, inl, inr, true, refl, arith, ℕ, Option, List, test,
  Bool-cases, Option-cases, ◌≢◌, eq_null, not,
}
use vgen.Table.{select_where}
use vgen.Gateway.Tx.{Ensures, Ensures-if, Ensures-ok, Ensures-require, Ensures-at, Ensures-found}

-- The sweeps of leases and reservations leave the jobs.
expire_lease-jobs :
    (stamp k : ℕ) (o : Option Attempt) (db : Db) → (expire_lease stamp k o db).0.jobs ≡ db.jobs
unfolding expire_lease release_expired
expire_lease-jobs stamp k none db = refl
expire_lease-jobs stamp k (some a) db =
    elim (Bool-cases (test is_executing (db.tasks.row a.task_id))) [
      | inl moved ↦ rw moved (rw (enqueue-eq a.task_id (some k) "lease_expired" stamp _) refl)
      | inr idle ↦ rw idle refl
    ]

expire_each-jobs : (stamp : ℕ) (ks : List ℕ) (db : Db) → (expire_each stamp ks db).0.jobs ≡ db.jobs
unfolding expire_each
expire_each-jobs stamp [] db = refl
expire_each-jobs stamp (k ∷ ks) db =
    expire_each-jobs stamp ks _ ∙ expire_lease-jobs stamp k (db.attempts.row k) db

pub swept-jobs : (stamp : ℕ) (db : Db) → (swept stamp db).jobs ≡ db.jobs
unfolding expire_leases finalize_drained_workers expire_reservations
swept-jobs stamp db =
    expire_each-jobs stamp
      (select_where (is_lease_expired stamp) (expire_reservations stamp db).leases)
      (expire_reservations stamp db)

claim_swept-IsTable : (stamp : ℕ) (db : Db) → IsTable db.jobs → IsTable (claim_swept stamp db).jobs
unfolding expire_maintenance_jobs
claim_swept-IsTable stamp db h =
    let s : IsTable (swept stamp db).jobs = rw (swept-jobs stamp db) h in
    IsTable-kept s refl (λ k. ground arith)

-- A job of the worker that keeps tasks away.
abbrev Blocks : ℕ → Db → Type 0
Blocks worker_id db =
    IsTable db.jobs
    × ((k : ℕ) × (test (λ j. j.worker_id == worker_id && blocks_tasks j.state) (db.jobs.row k)
          ≡ true))

Blocks-has_maintenance :
    (worker_id : ℕ) (db : Db) → Blocks worker_id db → has_maintenance worker_id db ≡ true
unfolding has_maintenance
Blocks-has_maintenance worker_id db (h, (k, b)) =
    elim (Bool-cases
      (exists_where (λ _ j. j.worker_id == worker_id && blocks_tasks j.state) db.jobs)) [
        | inl yes_ ↦ yes_
        | inr none_ ↦ elim (Option-cases (db.jobs.row k)) [
          | inl e ↦ ground arith
          | inr (j, e) ↦ ground (
            arith,
            exists_false (λ _ i. i.worker_id == worker_id && blocks_tasks i.state) db.jobs h none_ k
                j e,
          )
        ]
      ]

abbrev Claimed : ℕ → Option Claim → Db → Type 0
Claimed worker_id none db = Unit
Claimed worker_id (some c) db = Blocks worker_id db

module _ (worker_id session_id ttl stamp : ℕ) (actions : List JobKind) (db : Db)
    (h : IsTable db.jobs) where
  claim_held-Claimed :
      (k : ℕ) (j : Job)
      → held_job worker_id stamp db ≡ some (k, j)
      → Ensures (Claimed worker_id) (claim_held actions session_id stamp ttl k j db)
  unfolding held_job renew_job
  claim_held-Claimed k j e =
      let s = select_first_sound job_before _ db.jobs k j e in
      Ensures-if (allows j.kind actions && eq_null j.lease_session_id session_id) _ _
        (λ mine. Ensures-ok _ _ (IsTable-kept h refl (λ i. ground arith), (k, ground (arith, s))))
        λ other. Ensures-ok none db tt

  claim_queued-Claimed :
      (o : Option (ℕ × Job))
      → queued_job worker_id actions stamp db ≡ o
      → Ensures (Claimed worker_id) (claim_queued session_id stamp ttl o db)
  unfolding queued_job lease_job
  claim_queued-Claimed none e = Ensures-ok none db tt
  claim_queued-Claimed (some (k, j)) e =
      let s = select_first_sound job_before _ db.jobs k j e in
      Ensures-ok _ _ (IsTable-kept h refl (λ i. ground arith), (k, ground (arith, s)))

  claim_job-Claimed :
      (o : Option (ℕ × Job))
      → held_job worker_id stamp db ≡ o
      → Ensures (Claimed worker_id) (claim_job worker_id actions session_id stamp ttl o db)
  claim_job-Claimed (some (k, j)) e = claim_held-Claimed k j e
  claim_job-Claimed none e =
      Ensures-if (has_live_attempt worker_id db) _ _ (λ busy. Ensures-ok none db tt)
        λ idle. claim_queued-Claimed (queued_job worker_id actions stamp db) refl

claim-Claimed :
    (worker_id session_id ttl stamp : ℕ) (supported : List (Option JobKind)) (db : Db)
    → IsTable db.jobs
    → Ensures
        (Claimed worker_id)
        (claim_worker_maintenance worker_id session_id ttl supported stamp db)
unfolding claim_worker_maintenance
claim-Claimed worker_id session_id ttl stamp supported db h =
    let s = claim_swept stamp db in
    Ensures-require (is_action_list (known_actions supported)) maintenance_actions_invalid _
      λ valid. Ensures-found (s.workers.row worker_id) worker_not_found _ λ w row.
        Ensures-require (not (is_status w.status WorkerStatus.draining)) worker_draining _
          λ staying.
            Ensures-require (is_status w.status WorkerStatus.active) worker_offline _ λ active.
              claim_job-Claimed worker_id session_id ttl stamp (known_actions supported) s
                (claim_swept-IsTable stamp db h) (held_job worker_id stamp s) refl

-- After a claim that is answered with a maintenance job, a request of the worker for a task is never
-- granted one, whenever it comes, as long as no other request comes between.
pub claim_excludes_tasks :
    (worker_id session_id ttl stamp later span : ℕ) (supported : List (Option JobKind)) (c : Claim)
    (g : Grant) (db db' after : Db)
    → IsTable db.jobs
    → claim_worker_maintenance worker_id session_id ttl supported stamp db ≡ ok (some c, db')
    → lease worker_id span later db' ≢ ok (some g, after)
claim_excludes_tasks worker_id session_id ttl stamp later span supported c g db db' after h e
      granted =
    let blocked : Blocks worker_id db' =
      Ensures-at (claim_worker_maintenance worker_id session_id ttl supported stamp db) e
        (claim-Claimed worker_id session_id ttl stamp supported db h) in
    let still : Blocks worker_id (swept later db') = rw (swept-jobs later db') blocked in
    let busy = Blocks-has_maintenance worker_id (swept later db') still in
    let free = (lease-Granted worker_id span later db' granted).undisturbed in
    ground (arith, busy, free)
