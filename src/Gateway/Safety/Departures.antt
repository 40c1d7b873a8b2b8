-- ===== src/Gateway/Safety/Departures.antt =====
-- What a worker reports of itself and its departure keep the scheduling database consistent
-- (`worker_heartbeat` and `leave_worker` of src/vgen/gateway/repository.py).
use vgen.Base.{[], ◌∷◌, some, true, false, refl, ◌==◌, ℕ, Option, String, not, Bool, ◌||◌, List}
use vgen.Gateway.Tx.{
  Ensures, Ensures-found, worker_not_found, Ensures-require, worker_revoked, Ensures-if, Ensures-ok,
  worker_capabilities_required, worker_access_denied,
}
use vgen.Gateway.Workers.{
  worker_heartbeat, touch_worker, store_capabilities, Projection, expire_prepared, waits_for,
  release_queue, release_all, or_version, request_rekeys, retire, depart, leave_worker, departed,
  interrupt, or_stamp, drain_queue, executes_for,
}
use vgen.Gateway.Db.{Db, WorkerStatus}
use vgen.Gateway.Safety.{IsConsistent}
use vgen.Gateway.Safety.Leases.{Kept}
use vgen.Gateway.Sweep.{is_status}
use vgen.Gateway.Safety.Sweeps.{IsConsistent-same, enqueue-IsConsistent}
use vgen.Gateway.Safety.Maintenance.{IsConsistent-workers}
use vgen.Table.{select_where}
use vgen.Gateway.Jobs.{has_live_attempt}
use vgen.Gateway.Commands.{key_of, last_attempt}
use vgen.Gateway.Safety.Releases.{
  release_all-IsConsistent, expire_prepared-IsConsistent, release_queue-IsConsistent,
}

pub worker_heartbeat-IsConsistent :
    (projection : Projection) (worker_id : ℕ) (report : Option String) (stamp : ℕ) (db : Db)
    → IsConsistent db
    → Ensures Kept (worker_heartbeat projection worker_id report stamp db)
unfolding worker_heartbeat touch_worker store_capabilities
worker_heartbeat-IsConsistent projection worker_id report stamp db h =
    Ensures-found (db.workers.row worker_id) worker_not_found _ λ w row.
      Ensures-require (not (is_status w.status WorkerStatus.revoked)) worker_revoked _ λ known.
        Ensures-if (is_status w.status WorkerStatus.draining) _ _
          (λ draining. Ensures-ok _ _ (
            IsConsistent-same
              (IsConsistent-workers (λ k _. k == worker_id)
                (λ v. record v { last_seen_at = some stamp; updated_at = stamp }) (λ v. refl) h)
              refl refl refl refl refl))
          λ staying. Ensures-found report worker_capabilities_required _ λ reported given.
            let capabilities = projection.capabilities db worker_id w reported in
            Ensures-ok _ _ (
              IsConsistent-same
                (IsConsistent-workers (λ k _. k == worker_id)
                  (λ v. record v {
                    status = WorkerStatus.active;
                    last_seen_at = some stamp;
                    capabilities = capabilities;
                    executor_version =
                        or_version (projection.executor_version w capabilities) v.executor_version;
                    updated_at = stamp;
                  })
                  (λ v. refl) h)
                refl refl refl refl refl)

request_rekeys-IsConsistent :
    (reason : String) (stamp : ℕ) (ks : List ℕ) (db : Db)
    → IsConsistent db
    → IsConsistent (request_rekeys reason stamp ks db)
unfolding request_rekeys
request_rekeys-IsConsistent reason stamp [] db h = h
request_rekeys-IsConsistent reason stamp (k ∷ ks) db h =
    request_rekeys-IsConsistent reason stamp ks _
      (enqueue-IsConsistent k (key_of (last_attempt k db)) reason stamp db h)

retire-IsConsistent :
    (worker_id : ℕ) (revoked : Bool) (stamp : ℕ) (db : Db)
    → IsConsistent db
    → IsConsistent (retire worker_id revoked stamp db)
unfolding retire
retire-IsConsistent worker_id revoked stamp db h =
    IsConsistent-same
      (IsConsistent-workers (λ k _. k == worker_id)
        (λ w. record w {
          status = departed revoked;
          updated_at = stamp;
          revoked_at = or_stamp revoked w.revoked_at stamp;
        })
        (λ w. refl) h)
      refl refl refl refl refl

depart-IsConsistent :
    (worker_id : ℕ) (force revoked : Bool) (stamp : ℕ) (db : Db)
    → IsConsistent db
    → IsConsistent (depart worker_id force revoked stamp db)
unfolding depart interrupt drain_queue
depart-IsConsistent worker_id true revoked stamp db h =
    let retired = retire worker_id revoked stamp (expire_prepared worker_id stamp db) in
    request_rekeys-IsConsistent "worker_revoked" stamp
      (select_where (λ _ t. executes_for worker_id t) retired.tasks)
      (release_all worker_id stamp retired)
      (release_all-IsConsistent worker_id stamp retired (
        retire-IsConsistent worker_id revoked stamp _
          (expire_prepared-IsConsistent worker_id stamp db h)))
depart-IsConsistent worker_id false revoked stamp db h =
    let prepared = expire_prepared worker_id stamp db in
    retire-IsConsistent worker_id revoked stamp _ (
      request_rekeys-IsConsistent "worker_draining" stamp
        (select_where (waits_for worker_id prepared) prepared.tasks)
        (release_queue worker_id stamp prepared)
        (release_queue-IsConsistent worker_id stamp prepared
          (expire_prepared-IsConsistent worker_id stamp db h)))

pub leave_worker-IsConsistent :
    (worker_id owner_user_id : ℕ) (force : Bool) (stamp : ℕ) (db : Db)
    → IsConsistent db
    → Ensures Kept (leave_worker worker_id owner_user_id force stamp db)
unfolding leave_worker
leave_worker-IsConsistent worker_id owner_user_id force stamp db h =
    Ensures-found (db.workers.row worker_id) worker_access_denied _ λ w row.
      Ensures-require (w.owner_user_id == owner_user_id) worker_access_denied _ λ owned.
        Ensures-ok _ _ (
          depart-IsConsistent worker_id force (force || not (has_live_attempt worker_id db)) stamp
            db h)
