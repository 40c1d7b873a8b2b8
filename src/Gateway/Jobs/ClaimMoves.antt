-- ===== src/Gateway/Jobs/ClaimMoves.antt =====
-- A claim moves the jobs along their machine (claim_worker_maintenance of
-- src/vgen/gateway/repository.py).
use vgen.Base.{
  none, some, true, refl, arith, ◌≡◌, ℕ, List, Option, not, ◌&&◌, ◌==◌, sym, eq_null, ◌∙◌, subst,
  ap, ==→eq,
}
use vgen.Gateway.Tx.{Ensures, Ensures-found, Ensures-require, Ensures-if, Ensures-ok, Ensures-mono}
use vgen.Gateway.Jobs.Machine.{
  JobsMoved, JobsMoved-refl, JobsMoved-trans, JobsMoved-update_where, JobsMoved-update_row, Moved,
  stay, move, JobStep, JobPath, some_injective, Sweeping, of_claim,
}
use vgen.Gateway.Db.{Db, JobKind, Job, JobState, WorkerStatus}
use vgen.Gateway.Jobs.{
  claim_worker_maintenance, is_queued_job, claim_swept, held_job, queued_job, renew_job, lease_job,
  claim_held, claim_queued, job_before, allows, leased_job, claim_job, is_action_list,
  has_live_attempt, known_actions, maintenance_actions_invalid, worker_not_found, is_status,
  worker_draining, worker_offline,
}
use vgen.Gateway.Jobs.Exclusive.{swept-jobs}
use vgen.Table.Select.{select_first_sound}
use vgen.Gateway.Leasing.Grants.{swept}
use vgen.Gateway.Jobs.Moves.{JobsKept, expire_maintenance_jobs-moved}
use vgen.Gateway.Jobs.Drivers.{JobRequest, claim_maintenance}

pub claim_swept-moved :
    {q : JobRequest}
    → Sweeping q
    → (stamp : ℕ) (db : Db) → JobsMoved q db.jobs (claim_swept stamp db).jobs
claim_swept-moved {q} sweeps stamp db =
    subst (λ t. JobsMoved q t (claim_swept stamp db).jobs) (swept-jobs stamp db)
      (expire_maintenance_jobs-moved sweeps stamp (swept stamp db))

module _ (worker_id session_id ttl stamp : ℕ) (supported : List (Option JobKind))
    (actions : List JobKind) (db : Db) where
  abbrev claiming : JobRequest
  claiming = claim_maintenance worker_id session_id ttl supported

  claim_held-moved :
      (k : ℕ) (j : Job)
      → held_job worker_id stamp db ≡ some (k, j)
      → Ensures (JobsKept claiming db) (claim_held actions session_id stamp ttl k j db)
  unfolding held_job renew_job
  claim_held-moved k j e =
      let s = select_first_sound job_before _ db.jobs k j e in
      Ensures-if (allows j.kind actions && eq_null j.lease_session_id session_id) _ _
        (λ mine. Ensures-ok _ (renew_job k j stamp ttl db) (
          JobsMoved-update_row claiming k j _ db.jobs s.0
            (record { path = stay; token = omega arith; settled = λ over. ground (arith, s) })))
        λ other. Ensures-ok none db (JobsMoved-refl _ db.jobs)

  claim_queued-moved :
      (o : Option (ℕ × Job))
      → queued_job worker_id actions stamp db ≡ o
      → Ensures (JobsKept claiming db) (claim_queued session_id stamp ttl o db)
  unfolding queued_job lease_job
  claim_queued-moved none e = Ensures-ok none db (JobsMoved-refl _ db.jobs)
  claim_queued-moved (some (k, j)) e =
      let s = select_first_sound job_before _ db.jobs k j e in
      Ensures-ok _ (lease_job k j session_id stamp ttl db) (
        JobsMoved-update_where claiming (λ i h. i == k && is_queued_job h.state)
          (leased_job j session_id stamp ttl) db.jobs
          λ i h row hit.
            let same : some h ≡ some j =
              sym row ∙ (ap db.jobs.row (==→eq i k (ground arith)) ∙ s.0) in
            leased i h (some_injective same) (ground arith))
    where
      from : (i : ℕ) (s : JobState) → is_queued_job s ≡ true → JobPath claiming i s JobState.leased
      from i JobState.queued e = move JobStep.claimed stay
      from i _ e = ground arith

      leased :
          (i : ℕ) (h : Job)
          → h ≡ j
          → is_queued_job h.state ≡ true
          → Moved claiming i h (leased_job j session_id stamp ttl h)
      leased i h same queued = record {
        path = from i h.state queued;
        token = omega (arith, ap (λ (x : Job). x.fencing_token) same);
        settled = λ over. ground arith;
      }

  claim_job-moved :
      (o : Option (ℕ × Job))
      → held_job worker_id stamp db ≡ o
      → Ensures (JobsKept claiming db) (claim_job worker_id actions session_id stamp ttl o db)
  claim_job-moved (some (k, j)) e = claim_held-moved k j e
  claim_job-moved none e =
      Ensures-if (has_live_attempt worker_id db) _ _
        (λ busy. Ensures-ok none db (JobsMoved-refl _ db.jobs))
        λ idle. claim_queued-moved (queued_job worker_id actions stamp db) refl

pub claim-moved :
    (worker_id session_id ttl stamp : ℕ) (supported : List (Option JobKind)) (db : Db)
    → Ensures
        (JobsKept (claim_maintenance worker_id session_id ttl supported) db)
        (claim_worker_maintenance worker_id session_id ttl supported stamp db)
unfolding claim_worker_maintenance
claim-moved worker_id session_id ttl stamp supported db =
    let s = claim_swept stamp db in
    Ensures-require (is_action_list (known_actions supported)) maintenance_actions_invalid _
      λ valid. Ensures-found (s.workers.row worker_id) worker_not_found _ λ w row.
        Ensures-require (not (is_status w.status WorkerStatus.draining)) worker_draining _
          λ staying.
            Ensures-require (is_status w.status WorkerStatus.active) worker_offline _ λ active.
              Ensures-mono
                (λ c db' m.
                  JobsMoved-trans _ db.jobs s.jobs db'.jobs (claim_swept-moved of_claim stamp db) m)
                (claim_job worker_id (known_actions supported) session_id stamp ttl
                  (held_job worker_id stamp s) s)
                (claim_job-moved worker_id session_id ttl stamp supported (known_actions supported)
                  s (held_job worker_id stamp s) refl)
