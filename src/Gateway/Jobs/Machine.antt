-- ===== src/Gateway/Jobs/Machine.antt =====
-- The life of a maintenance job as a machine of its own, and the requests that drive it: what
-- src/vgen/gateway/repository.py does to `worker_maintenance_jobs`.
use vgen.Base.{
  none, some, true, false, inl, inr, refl, arith, ◌==◌, ◌≤◌, ◌≡◌, ◌∙◌, ℕ, subst, Option, Bool, sym,
  ap, Bool-cases, ==→eq, List, String,
}
use vgen.Gateway.Db.{JobState, Job, JobKind}
use vgen.Table.{Table, update_row, update_where}
use vgen.Gateway.Expiry.{is_held_job, is_open_job}
use vgen.Gateway.Jobs.Reports.{reported_job_state, JobHeartbeat}
use vgen.Gateway.Jobs.Completion.{final_state, JobReport}
use vgen.Gateway.Jobs.Drivers.{
  JobRequest, commit_maintenance, record_upload, claim_maintenance, sweep_maintenance,
  heartbeat_maintenance, complete_maintenance, cancel_maintenance,
}
use vgen.Gateway.Jobs.Authorizations.{Authority}

-- The requests that sweep the jobs before they do anything else.
pub data Sweeping : JobRequest → Type 0 where
  of_commit :
      {job_id user_id device_id : ℕ} → Sweeping (commit_maintenance job_id user_id device_id)
  of_claim :
      {worker_id session_id ttl : ℕ} {supported : List (Option JobKind)}
      → Sweeping (claim_maintenance worker_id session_id ttl supported)
  sweeping : Sweeping sweep_maintenance

-- One move that a request may make of the job with a key.
pub data JobStep : JobRequest → ℕ → JobState → JobState → Type 0 where
  upload_committed :
      {job_id user_id device_id : ℕ}
      → JobStep
          (commit_maintenance job_id user_id device_id)
          job_id
          JobState.awaiting_upload
          JobState.queued
  upload_failed :
      {prefixed : String → String} {artifact_id size k : ℕ} {digest : Option String}
      → JobStep
          (record_upload prefixed artifact_id size digest)
          k
          JobState.awaiting_upload
          JobState.failed
  claimed :
      {worker_id session_id ttl k : ℕ} {supported : List (Option JobKind)}
      → JobStep
          (claim_maintenance worker_id session_id ttl supported)
          k
          JobState.queued
          JobState.leased
  reported :
      {s : JobState}
      → is_held_job s ≡ true
      → (h : JobHeartbeat)
      → JobStep (heartbeat_maintenance h) h.job_id s (reported_job_state h.state)
  completed :
      {s : JobState} {auth : Authority}
      → is_held_job s ≡ true
      → (r : JobReport) → JobStep (complete_maintenance auth r) r.job_id s (final_state r.succeeded)
  cancelled :
      {s : JobState} {job_id owner_user_id : ℕ}
      → is_open_job s ≡ true
      → JobStep (cancel_maintenance job_id owner_user_id) job_id s JobState.cancelled
  abandoned :
      {q : JobRequest} {k : ℕ} {s : JobState}
      → Sweeping q
      → is_held_job s ≡ true
      → JobStep q k s JobState.queued
  window_over :
      {q : JobRequest} {k : ℕ} {s : JobState}
      → Sweeping q
      → is_open_job s ≡ true
      → JobStep q k s JobState.expired

pub data JobPath (q : JobRequest) (k : ℕ) : JobState → JobState → Type 0 where
  stay : {s : JobState} → JobPath q k s s
  move : {s t u : JobState} → JobStep q k s t → JobPath q k t u → JobPath q k s u

JobPath-trans :
    {q : JobRequest} {k : ℕ} {s t u : JobState}
    → JobPath q k s t
    → JobPath q k t u
    → JobPath q k s u
JobPath-trans stay p = p
JobPath-trans (move m p) r = move m (JobPath-trans p r)

-- What may become of a job's row: its state moves along the request's steps, its token never falls, and a
-- job that is over keeps its row.
pub record Moved (q : JobRequest) (k : ℕ) (j j' : Job) : Type 0 where
  pub path : JobPath q k j.state j'.state
  pub token : j.fencing_token ≤ j'.fencing_token
  pub settled : is_open_job j.state ≡ false → j' ≡ j

Moved-refl : (q : JobRequest) (k : ℕ) (j : Job) → Moved q k j j
Moved-refl q k j = record { path = stay; token = omega arith; settled = λ h. refl }

Moved-trans : {r : JobRequest} {n : ℕ} {i j k : Job} → Moved r n i j → Moved r n j k → Moved r n i k
Moved-trans {r} {n} {i} {j} {k} p q = record {
  path = JobPath-trans p.path q.path;
  token = omega (arith, p.token, q.token);
  settled = λ h.
      let first = p.settled h in
      q.settled (subst (λ (x : Job). is_open_job x.state ≡ false) (sym first) h) ∙ first;
}

-- A job of which no row is lost.
pub record MovedTo (q : JobRequest) (k : ℕ) (j : Job) (o : Option Job) : Type 0 where
  pub job : Job
  pub row : o ≡ some job
  pub moved : Moved q k j job

abbrev pub JobsMoved : JobRequest → Table Job → Table Job → Type 0
JobsMoved q t u = (k : ℕ) (j : Job) → t.row k ≡ some j → MovedTo q k j (u.row k)

pub JobsMoved-refl : (q : JobRequest) (t : Table Job) → JobsMoved q t t
JobsMoved-refl q t k j row = record { job = j; row = row; moved = Moved-refl q k j }

pub JobsMoved-trans :
    (q : JobRequest) (t u v : Table Job) → JobsMoved q t u → JobsMoved q u v → JobsMoved q t v
JobsMoved-trans q t u v f g k j row =
    let a = f k j row in
    let b = g k a.job a.row in
    record { job = b.job; row = b.row; moved = Moved-trans a.moved b.moved }

-- An UPDATE moves the jobs that it selects.
pub JobsMoved-update_where :
    (q : JobRequest) (p : ℕ → Job → Bool) (f : Job → Job) (t : Table Job)
    → ((k : ℕ) (j : Job) → t.row k ≡ some j → p k j ≡ true → Moved q k j (f j))
    → JobsMoved q t (update_where p f t)
JobsMoved-update_where q p f t h k j row = elim (Bool-cases (p k j)) [
  | inl hit ↦ record { job = f j; row = rw (row, hit) refl; moved = h k j row hit }
  | inr miss ↦ record { job = j; row = rw (row, miss) refl; moved = Moved-refl q k j }
]

abbrev or_else : Job → Option Job → Job
or_else a none = a
or_else a (some b) = b

pub some_injective : {a b : Job} → some a ≡ some b → a ≡ b
some_injective {a} {b} e = ap (or_else a) e

-- An UPDATE ... WHERE id=? of a row that was read.
pub JobsMoved-update_row :
    (q : JobRequest) (job_id : ℕ) (i : Job) (f : Job → Job) (t : Table Job)
    → t.row job_id ≡ some i
    → Moved q job_id i (f i)
    → JobsMoved q t (update_row job_id f t)
JobsMoved-update_row q job_id i f t read h =
    JobsMoved-update_where q (λ j _. j == job_id) f t
      λ k j row hit.
        let here = ==→eq k job_id hit in
        let same : some j ≡ some i = sym row ∙ (ap t.row here ∙ read) in
        subst (λ n. Moved q n j (f j)) (sym here)
          (subst (λ x. Moved q job_id x (f x)) (sym (some_injective same)) h)
