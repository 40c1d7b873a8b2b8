-- ===== src/Gateway/Jobs/Fencing.antt =====
-- A claim of a maintenance job fences off whoever held it before (`claim_worker_maintenance` of
-- src/vgen/gateway/repository.py).
use vgen.Base.{
  none, some, true, false, refl, arith, ◌&&◌, ◌≡◌, List, ℕ, ==_refl, Option, ◌≤◌, ◌<◌, eq_null, not,
}
use vgen.Gateway.Tx.{
  ok, raise, Ensures, Ensures-at, maintenance_lease_lost, Ensures-if, Ensures-require, Ensures-ok,
  Ensures-found,
}
use vgen.Gateway.Jobs.Completion.{complete_worker_maintenance, complete_job, JobReport}
use vgen.Gateway.Jobs.Reports.{
  fenced_job, of_worker, heartbeat_worker_maintenance, heartbeat_job, JobHeartbeat,
}
use vgen.Gateway.Db.{Job, Db, JobKind, WorkerStatus}
use vgen.Gateway.Jobs.Authorizations.{Authority}
use vgen.Gateway.Jobs.Requests.{run_jobs, run_jobs_refines}
use vgen.Gateway.Jobs.Drivers.{JobRequest}
use vgen.Gateway.Jobs.{
  Claim, claim_worker_maintenance, held_job, queued_job, claim_swept, renew_job, lease_job,
  claim_job, is_action_list, claim_held, claim_queued, has_live_attempt, known_actions,
  maintenance_actions_invalid, job_before, allows, is_queued_job, worker_not_found, leased_job,
  is_status, worker_draining, worker_offline, renewed_job,
}
use vgen.Table.Select.{select_first_sound}

-- The job of a claim, under its token.
record Held (c : Claim) (db : Db) : Type 0 where
  job : Job
  row : db.jobs.row c.job_id ≡ some job
  token : c.fencing_token ≤ job.fencing_token

lost_token :
    (c : Claim) (worker_id token : ℕ) (db : Db)
    → Held c db
    → token < c.fencing_token
    → fenced_job c.job_id worker_id token db ≡ none
unfolding fenced_job
lost_token c worker_id token db h older =
    let miss : of_worker worker_id token h.job ≡ false = ground (arith, h.token, older) in
    rw (h.row, miss) refl

abbrev HeldBy : Option Claim → Db → Type 0
HeldBy none db = Unit
HeldBy (some c) db = Held c db

module _ (worker_id session_id ttl stamp : ℕ) (actions : List JobKind) (db : Db) where
  claim_held-HeldBy :
      (k : ℕ) (j : Job)
      → held_job worker_id stamp db ≡ some (k, j)
      → Ensures HeldBy (claim_held actions session_id stamp ttl k j db)
  unfolding held_job renew_job
  claim_held-HeldBy k j e =
      let s = select_first_sound job_before _ db.jobs k j e in
      Ensures-if (allows j.kind actions && eq_null j.lease_session_id session_id) _ _
        (λ mine. Ensures-ok _ _ (record {
          job = renewed_job j stamp ttl j;
          row = rw (s.0, ==_refl k) refl;
          token = omega arith;
        }))
        λ other. Ensures-ok none db tt

  claim_queued-HeldBy :
      (o : Option (ℕ × Job))
      → queued_job worker_id actions stamp db ≡ o
      → Ensures HeldBy (claim_queued session_id stamp ttl o db)
  unfolding queued_job lease_job
  claim_queued-HeldBy none e = Ensures-ok none db tt
  claim_queued-HeldBy (some (k, j)) e =
      let s = select_first_sound job_before _ db.jobs k j e in
      let queued : is_queued_job j.state ≡ true = ground (arith, s) in
      Ensures-ok _ _ (record {
        job = leased_job j session_id stamp ttl j;
        row = rw (s.0, ==_refl k, queued) refl;
        token = omega arith;
      })

  claim_job-HeldBy :
      (o : Option (ℕ × Job))
      → held_job worker_id stamp db ≡ o
      → Ensures HeldBy (claim_job worker_id actions session_id stamp ttl o db)
  claim_job-HeldBy (some (k, j)) e = claim_held-HeldBy k j e
  claim_job-HeldBy none e =
      Ensures-if (has_live_attempt worker_id db) _ _ (λ busy. Ensures-ok none db tt)
        λ idle. claim_queued-HeldBy (queued_job worker_id actions stamp db) refl

claim-HeldBy :
    (worker_id session_id ttl stamp : ℕ) (supported : List (Option JobKind)) (db : Db)
    → Ensures HeldBy (claim_worker_maintenance worker_id session_id ttl supported stamp db)
unfolding claim_worker_maintenance
claim-HeldBy worker_id session_id ttl stamp supported db =
    let s = claim_swept stamp db in
    Ensures-require (is_action_list (known_actions supported)) maintenance_actions_invalid _
      λ valid. Ensures-found (s.workers.row worker_id) worker_not_found _ λ w row.
        Ensures-require (not (is_status w.status WorkerStatus.draining)) worker_draining _
          λ staying.
            Ensures-require (is_status w.status WorkerStatus.active) worker_offline _ λ active.
              claim_job-HeldBy worker_id session_id ttl stamp (known_actions supported) s
                (held_job worker_id stamp s) refl

Held-run :
    (c : Claim) (history : List (JobRequest × ℕ)) (db : Db)
    → Held c db
    → Held c (run_jobs history db)
Held-run c history db h =
    let m = run_jobs_refines history db c.job_id h.job h.row in
    record { job = m.job; row = m.row; token = omega (arith, h.token, m.token) }

module _ (worker_id session_id ttl stamp later : ℕ) (supported : List (Option JobKind)) (c : Claim)
    (db db' : Db) (history : List (JobRequest × ℕ))
    (answered : claim_worker_maintenance worker_id session_id ttl supported stamp db
      ≡ ok (some c, db')) where
  claimed-lost :
      (holder token : ℕ)
      → token < c.fencing_token
      → fenced_job c.job_id holder token (run_jobs history db') ≡ none
  claimed-lost holder token older =
      lost_token c holder token (run_jobs history db')
        (Held-run c history db' (
          Ensures-at (claim_worker_maintenance worker_id session_id ttl supported stamp db) answered
            (claim-HeldBy worker_id session_id ttl stamp supported db)))
        older

  -- After a claim is answered, and any history of requests on maintenance jobs, a completion of that
  -- job under a smaller token than the claim's is refused, whoever reports it.
  pub stale_completion :
      (auth : Authority) (r : JobReport)
      → r.job_id ≡ c.job_id
      → r.fencing_token < c.fencing_token
      → complete_worker_maintenance auth r later (run_jobs history db')
        ≡ raise maintenance_lease_lost
  unfolding complete_worker_maintenance complete_job
  stale_completion auth r same older =
      rw (same, claimed-lost r.worker_id r.fencing_token older) refl

  -- After a claim is answered, and any history of requests on maintenance jobs, a heartbeat for that
  -- job under a smaller token than the claim's is refused.
  pub stale_heartbeat :
      (h : JobHeartbeat)
      → h.job_id ≡ c.job_id
      → h.fencing_token < c.fencing_token
      → heartbeat_worker_maintenance h later (run_jobs history db') ≡ raise maintenance_lease_lost
  unfolding heartbeat_worker_maintenance heartbeat_job
  stale_heartbeat h same older = rw (same, claimed-lost h.worker_id h.fencing_token older) refl
