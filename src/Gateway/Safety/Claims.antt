-- ===== src/Gateway/Safety/Claims.antt =====
-- The claim of a maintenance job keeps the database consistent (`claim_worker_maintenance` of
-- src/vgen/gateway/repository.py).
use vgen.Gateway.Db.{Db, Job, JobKind, WorkerStatus}
use vgen.Gateway.Expiry.{expire_maintenance_jobs}
use vgen.Gateway.Jobs.{
  claim_worker_maintenance, claim_job, claim_held, claim_queued, claim_swept, held_job, queued_job,
  has_live_attempt, renew_job, lease_job, allows, is_action_list, known_actions,
}
use vgen.Gateway.Safety.{IsConsistent}
use vgen.Base.{◌&&◌, none, some, refl, ℕ, List, Option, eq_null, not}
use vgen.Gateway.Safety.Sweeps.{
  IsConsistent-same, expire_leases-IsConsistent, expire_reservations-IsConsistent,
}
use vgen.Gateway.Tx.{
  Ensures, Ensures-if, Ensures-ok, Ensures-require, maintenance_actions_invalid, Ensures-found,
  worker_not_found, worker_draining, worker_offline,
}
use vgen.Gateway.Safety.Leases.{Kept}
use vgen.Gateway.Sweep.{is_status}

pub expire_maintenance_jobs-IsConsistent :
    (stamp : ℕ) (db : Db) → IsConsistent db → IsConsistent (expire_maintenance_jobs stamp db).0
unfolding expire_maintenance_jobs
expire_maintenance_jobs-IsConsistent stamp db h = IsConsistent-same h refl refl refl refl refl

module _ (worker_id session_id ttl stamp : ℕ) (actions : List JobKind) (db : Db)
    (h : IsConsistent db) where
  claim_held-IsConsistent :
      (k : ℕ) (j : Job) → Ensures Kept (claim_held actions session_id stamp ttl k j db)
  unfolding renew_job
  claim_held-IsConsistent k j =
      Ensures-if (allows j.kind actions && eq_null j.lease_session_id session_id) _ _
        (λ mine. Ensures-ok _ _ (IsConsistent-same h refl refl refl refl refl))
        λ other. Ensures-ok none db h

  claim_queued-IsConsistent :
      (o : Option (ℕ × Job)) → Ensures Kept (claim_queued session_id stamp ttl o db)
  unfolding lease_job
  claim_queued-IsConsistent none = Ensures-ok none db h
  claim_queued-IsConsistent (some (k, j)) =
      Ensures-ok _ _ (IsConsistent-same h refl refl refl refl refl)

  claim_job-IsConsistent :
      (o : Option (ℕ × Job)) → Ensures Kept (claim_job worker_id actions session_id stamp ttl o db)
  claim_job-IsConsistent (some (k, j)) = claim_held-IsConsistent k j
  claim_job-IsConsistent none =
      Ensures-if (has_live_attempt worker_id db) _ _ (λ busy. Ensures-ok none db h)
        λ idle. claim_queued-IsConsistent (queued_job worker_id actions stamp db)

pub claim-IsConsistent :
    (worker_id session_id ttl stamp : ℕ) (supported : List (Option JobKind)) (db : Db)
    → IsConsistent db
    → Ensures Kept (claim_worker_maintenance worker_id session_id ttl supported stamp db)
unfolding claim_worker_maintenance
claim-IsConsistent worker_id session_id ttl stamp supported db h =
    let s = claim_swept stamp db in
    Ensures-require (is_action_list (known_actions supported)) maintenance_actions_invalid _
      λ valid. Ensures-found (s.workers.row worker_id) worker_not_found _ λ w row.
        Ensures-require (not (is_status w.status WorkerStatus.draining)) worker_draining _
          λ staying.
            Ensures-require (is_status w.status WorkerStatus.active) worker_offline _ λ active.
              claim_job-IsConsistent worker_id session_id ttl stamp (known_actions supported) s
                (expire_maintenance_jobs-IsConsistent stamp _ (
                  expire_leases-IsConsistent stamp _ (expire_reservations-IsConsistent stamp db h)))
                (held_job worker_id stamp s)
