-- ===== src/Gateway/Jobs/Requests.antt =====
-- Histories of the requests that drive maintenance jobs (src/vgen/gateway/repository.py).
use vgen.Base.{
  none, [], ◌∷◌, refl, ◌≡◌, ◌∙◌, ℕ, List, Option, subst, sym, none, ◌≤◌, some, false, arith,
}
use vgen.Gateway.Tx.{ok, raise, transaction, Body, Ensures, Result, Ensures-ok, settle, after}
use vgen.Gateway.Commands.{
  enqueue_each, ensure_rekey_commands, key_of, last_attempt, needs_rekey_command,
}
use vgen.Gateway.Expiry.{sweep_expired, expire_commands, is_open_job}
use vgen.Gateway.Jobs.Consumers.{commit_worker_maintenance, cancel_worker_maintenance}
use vgen.Gateway.Db.{Db, JobState, Job}
use vgen.Gateway.Safety.Sweeps.{enqueue-eq}
use vgen.Gateway.Jobs.Machine.{JobsMoved, JobsMoved-refl, sweeping, JobPath}
use vgen.Gateway.Jobs.Reports.{heartbeat_worker_maintenance}
use vgen.Gateway.Jobs.{claim_worker_maintenance, claim_swept}
use vgen.Gateway.Jobs.Moves.{commit-moved, JobsKept, cancel-moved, heartbeat-moved}
use vgen.Gateway.Jobs.CompletionMoves.{complete-moved}
use vgen.Gateway.Jobs.ClaimMoves.{claim-moved, claim_swept-moved}
use vgen.Gateway.Jobs.Completion.{complete_worker_maintenance}
use vgen.Table.{select_where}
use vgen.Gateway.Jobs.Uploads.{mark_artifact_uploaded}
use vgen.Gateway.Jobs.UploadMoves.{mark_artifact_uploaded-moved}
use vgen.Gateway.Jobs.Drivers.{
  JobRequest, sweep_maintenance, commit_maintenance, cancel_maintenance, claim_maintenance,
  heartbeat_maintenance, complete_maintenance, record_upload,
}

unfoldable pub serve_job : JobRequest → ℕ → Db → Db
unfolding transaction commit_worker_maintenance cancel_worker_maintenance claim_worker_maintenance
    heartbeat_worker_maintenance complete_worker_maintenance mark_artifact_uploaded sweep_expired
serve_job (commit_maintenance job_id user_id device_id) stamp db =
    after (commit_worker_maintenance job_id user_id device_id stamp) db
serve_job (cancel_maintenance job_id owner_user_id) stamp db =
    after (cancel_worker_maintenance job_id owner_user_id stamp) db
serve_job (claim_maintenance worker_id session_id ttl supported) stamp db =
    after (claim_worker_maintenance worker_id session_id ttl supported stamp) db
serve_job (heartbeat_maintenance h) stamp db = after (heartbeat_worker_maintenance h stamp) db
serve_job (complete_maintenance auth r) stamp db =
    after (complete_worker_maintenance auth r stamp) db
serve_job (record_upload prefixed artifact_id size digest) stamp db =
    (mark_artifact_uploaded prefixed artifact_id size digest stamp db).1
serve_job sweep_maintenance stamp db = after (sweep_expired stamp) db

unfoldable pub run_jobs : List (JobRequest × ℕ) → Db → Db
unfolding serve_job
run_jobs [] db = db
run_jobs ((q, stamp) ∷ rest) db = run_jobs rest (serve_job q stamp db)

enqueue_each-jobs :
    (stamp : ℕ) (ks : List ℕ) (db : Db) → (enqueue_each stamp ks db).0.jobs ≡ db.jobs
unfolding enqueue_each
enqueue_each-jobs stamp [] db = refl
enqueue_each-jobs stamp (k ∷ ks) db =
    enqueue_each-jobs stamp ks _
    ∙ rw (enqueue-eq k (key_of (last_attempt k db)) "rekey_required" stamp db) refl

sweep_expired-moved :
    (stamp : ℕ) (db : Db) → Ensures (JobsKept sweep_maintenance db) (sweep_expired stamp db)
unfolding sweep_expired ensure_rekey_commands
sweep_expired-moved stamp db =
    let cleared = record db { commands = expire_commands stamp db.commands } in
    let s = claim_swept stamp cleared in
    Ensures-ok _ _ (
      subst (JobsMoved sweep_maintenance db.jobs)
        (sym (enqueue_each-jobs stamp (select_where (needs_rekey_command none stamp s) s.tasks) s))
        (claim_swept-moved sweeping stamp cleared))

-- A transaction that raises leaves the jobs as they were.
after-moved :
    (q : JobRequest) {A : Type 0} (body : Body A) (db : Db)
    → Ensures (JobsKept q db) (body db)
    → JobsMoved q db.jobs (after body db).jobs
unfolding transaction
after-moved q {A} body db e = settled (body db) e
  where
    settled :
        (m : Result (A × Db)) → Ensures (JobsKept q db) m → JobsMoved q db.jobs (settle db m).1.jobs
    settled (ok (a, db')) k = k.at
    settled (raise fault) k = JobsMoved-refl q db.jobs

pub serve_job-moved :
    (q : JobRequest) (stamp : ℕ) (db : Db) → JobsMoved q db.jobs (serve_job q stamp db).jobs
unfolding serve_job
serve_job-moved (commit_maintenance job_id user_id device_id) stamp db =
    after-moved _ (commit_worker_maintenance job_id user_id device_id stamp) db
      (commit-moved stamp job_id user_id device_id db)
serve_job-moved (cancel_maintenance job_id owner_user_id) stamp db =
    after-moved _ (cancel_worker_maintenance job_id owner_user_id stamp) db
      (cancel-moved stamp job_id owner_user_id db)
serve_job-moved (claim_maintenance worker_id session_id ttl supported) stamp db =
    after-moved _ (claim_worker_maintenance worker_id session_id ttl supported stamp) db
      (claim-moved worker_id session_id ttl stamp supported db)
serve_job-moved (heartbeat_maintenance h) stamp db =
    after-moved _ (heartbeat_worker_maintenance h stamp) db (heartbeat-moved stamp h db)
serve_job-moved (complete_maintenance auth r) stamp db =
    after-moved _ (complete_worker_maintenance auth r stamp) db (complete-moved auth r stamp db)
serve_job-moved (record_upload prefixed artifact_id size digest) stamp db =
    mark_artifact_uploaded-moved prefixed artifact_id size digest stamp db
serve_job-moved sweep_maintenance stamp db =
    after-moved _ (sweep_expired stamp) db (sweep_expired-moved stamp db)

-- What a history of requests may make of the state of the job with a key: each request, in its turn,
-- takes it along a path of the steps that this request has for this job.
pub data JobTrace (k : ℕ) : List (JobRequest × ℕ) → JobState → JobState → Type 0 where
  over : {s : JobState} → JobTrace k [] s s
  served :
      {q : JobRequest} {stamp : ℕ} {rest : List (JobRequest × ℕ)} {s t u : JobState}
      → JobPath q k s t
      → JobTrace k rest t u
      → JobTrace k ((q, stamp) ∷ rest) s u

pub record Traced (history : List (JobRequest × ℕ)) (k : ℕ) (j : Job) (o : Option Job)
    : Type 0 where
  pub job : Job
  pub row : o ≡ some job
  pub trace : JobTrace k history j.state job.state
  pub token : j.fencing_token ≤ job.fencing_token
  pub settled : is_open_job j.state ≡ false → job ≡ j

-- Over any history of uploads, commits, cancellations, claims, heartbeats, completions and sweeps,
-- answered or not, a maintenance job stays in its table, its fencing token never falls, once it is
-- over its row does not change, and its state goes request by request along steps of that request: a
-- commit of this job queues it from awaiting its upload, a failed upload ends it from there, a claim
-- leases it from the queue, a heartbeat of this job moves it to the reported state and a completion to
-- the reported end from a state that a worker holds, a cancellation of this job ends it while it is
-- open, and only a commit, a claim or a sweep may expire it while it is open or queue it again from a
-- state that a worker holds.
pub run_jobs_refines :
    (history : List (JobRequest × ℕ)) (db : Db) (k : ℕ) (j : Job)
    → db.jobs.row k ≡ some j
    → Traced history k j ((run_jobs history db).jobs.row k)
unfolding run_jobs
run_jobs_refines [] db k j row = record {
  job = j;
  row = row;
  trace = over;
  token = omega arith;
  settled = λ h. refl;
}
run_jobs_refines ((q, stamp) ∷ rest) db k j row =
    let a = serve_job-moved q stamp db k j row in
    let b = run_jobs_refines rest (serve_job q stamp db) k a.job a.row in
    record {
      job = b.job;
      row = b.row;
      trace = served a.moved.path b.trace;
      token = omega (arith, a.moved.token, b.token);
      settled = λ h.
          b.settled (subst (λ (x : Job). is_open_job x.state ≡ false) (sym (a.moved.settled h)) h)
          ∙ a.moved.settled h;
    }
