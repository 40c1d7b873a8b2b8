-- ===== src/Gateway/Jobs.antt =====
-- A worker takes and holds a maintenance job (`claim_worker_maintenance` and
-- `heartbeat_worker_maintenance` of src/vgen/gateway/repository.py).
pub mod Reports
pub mod Authorizations
pub mod Completion
pub mod Drivers
pub mod Machine
pub mod Moves
pub mod CompletionMoves
pub mod ClaimMoves
pub mod UploadMoves
pub mod Requests
pub mod Replay
pub mod Fencing
pub mod Consumers
pub mod Uploads
pub mod Exclusive
use vgen.Gateway.Tx.{
  ◌>>=◌, ◌>>◌, require, maintenance_actions_invalid, found, worker_not_found, worker_draining,
  worker_offline,
}
use vgen.Gateway.Db.{Db, Job, JobState, JobKind, Worker, WorkerStatus}
use vgen.Gateway.Sweep.{expire_reservations, expire_leases, is_live, is_status}
use vgen.Gateway.Expiry.{expire_maintenance_jobs, is_held_job}
use vgen.Base.{
  [], ◌∷◌, ◌==◌, ◌&&◌, ◌||◌, ◌+◌, none, some, true, false, if◌then◌else◌, ℕ, List, Bool, Option,
  not, ltb, ahead, min, eq_null,
}
use vgen.Table.{select_first, exists_key, exists_where, update_row, update_where}
use vgen.Gateway.Tx.{Body, ok}

abbrev pub kind_index : JobKind → ℕ
kind_index JobKind.worker_update = 0
kind_index JobKind.model_install = 1
kind_index JobKind.capability_install = 2
kind_index JobKind.node_pack_install = 3

abbrev pub allows : JobKind → List JobKind → Bool
allows k [] = false
allows k (j ∷ js) = kind_index j == kind_index k || allows k js

-- A reported action: one of the four kinds, or another text (`none`).
abbrev pub known_actions : List (Option JobKind) → List JobKind
known_actions [] = []
known_actions (none ∷ rest) = known_actions rest
known_actions (some k ∷ rest) = k ∷ known_actions rest

abbrev pairwise_different : List JobKind → Bool
pairwise_different [] = true
pairwise_different (k ∷ ks) = not (allows k ks) && pairwise_different ks

-- There is an action, and none is named twice.
abbrev pub is_action_list : List JobKind → Bool
is_action_list [] = false
is_action_list ks = pairwise_different ks

-- The job that a claim answers with.
pub record Claim : Type 0 where
  pub job_id : ℕ
  pub fencing_token : ℕ
  pub lease_expires_at : ℕ

abbrev pub job_before : ℕ × Job → ℕ × Job → Bool
job_before (_, a) (_, b) = ltb a.created_at b.created_at

abbrev pub is_queued_job : JobState → Bool
is_queued_job JobState.queued = true
is_queued_job _ = false

unfoldable pub held_job : ℕ → ℕ → Db → Option (ℕ × Job)
unfolding select_first
held_job worker_id stamp db =
    select_first job_before
      (λ _ j. j.worker_id == worker_id && is_held_job j.state && ahead j.lease_expires_at stamp)
      db.jobs

unfoldable pub queued_job : ℕ → List JobKind → ℕ → Db → Option (ℕ × Job)
unfolding select_first
queued_job worker_id actions stamp db =
    select_first job_before
      (λ _ j.
        j.worker_id == worker_id
        && is_queued_job j.state
        && ltb stamp j.expires_at
        && allows j.kind actions)
      db.jobs

unfoldable pub has_live_attempt : ℕ → Db → Bool
unfolding exists_key
has_live_attempt worker_id db =
    exists_where (λ _ a. a.worker_id == worker_id && is_live a.state) db.attempts

abbrev pub renewed_job : Job → ℕ → ℕ → Job → Job
renewed_job j stamp ttl i = record i {
  lease_expires_at = some (min (stamp + ttl) j.expires_at);
  heartbeat_at = some stamp;
  updated_at = stamp;
}

-- The lease of a job that the session holds is renewed.
unfoldable pub renew_job : ℕ → Job → ℕ → ℕ → Db → Db
renew_job job_id j stamp ttl db = record db {
  jobs = update_row job_id (renewed_job j stamp ttl) db.jobs;
}

abbrev pub leased_job : Job → ℕ → ℕ → ℕ → Job → Job
leased_job j session_id stamp ttl i = record i {
  state = JobState.leased;
  fencing_token = j.fencing_token + 1;
  lease_session_id = some session_id;
  lease_expires_at = some (min (stamp + ttl) j.expires_at);
  heartbeat_at = some stamp;
  updated_at = stamp;
}

unfoldable pub lease_job : ℕ → Job → ℕ → ℕ → ℕ → Db → Db
lease_job job_id j session_id stamp ttl db = record db {
  jobs =
      update_where (λ k i. k == job_id && is_queued_job i.state) (leased_job j session_id stamp ttl)
        db.jobs;
}

abbrev pub claim_held : List JobKind → ℕ → ℕ → ℕ → ℕ → Job → Body (Option Claim)
claim_held actions session_id stamp ttl job_id j db =
    if allows j.kind actions && eq_null j.lease_session_id session_id
    then ok (
      some (record {
        job_id = job_id;
        fencing_token = j.fencing_token;
        lease_expires_at = min (stamp + ttl) j.expires_at;
      }),
      renew_job job_id j stamp ttl db,
    )
    else ok (none, db)

abbrev pub claim_queued : ℕ → ℕ → ℕ → Option (ℕ × Job) → Body (Option Claim)
claim_queued session_id stamp ttl none db = ok (none, db)
claim_queued session_id stamp ttl (some (job_id, j)) db = ok (
  some (record {
    job_id = job_id;
    fencing_token = j.fencing_token + 1;
    lease_expires_at = min (stamp + ttl) j.expires_at;
  }),
  lease_job job_id j session_id stamp ttl db,
)

abbrev pub claim_job : ℕ → List JobKind → ℕ → ℕ → ℕ → Option (ℕ × Job) → Body (Option Claim)
claim_job worker_id actions session_id stamp ttl (some (job_id, j)) db =
    claim_held actions session_id stamp ttl job_id j db
claim_job worker_id actions session_id stamp ttl none db =
    if has_live_attempt worker_id db
    then ok (none, db)
    else claim_queued session_id stamp ttl (queued_job worker_id actions stamp db) db

-- The database that a claim sees.
abbrev pub claim_swept : ℕ → Db → Db
claim_swept stamp db =
    (expire_maintenance_jobs stamp (expire_leases stamp (expire_reservations stamp db)).0).0

unfoldable pub claim_worker_maintenance :
    ℕ → ℕ → ℕ → List (Option JobKind) → ℕ → Body (Option Claim)
unfolding held_job queued_job has_live_attempt renew_job lease_job expire_reservations expire_leases
    expire_maintenance_jobs
claim_worker_maintenance worker_id session_id ttl supported stamp before = do
  let actions = known_actions supported
  require (is_action_list actions) maintenance_actions_invalid
  let db = claim_swept stamp before
  w ← found (db.workers.row worker_id) worker_not_found
  require (not (is_status w.status WorkerStatus.draining)) worker_draining
  require (is_status w.status WorkerStatus.active) worker_offline
  claim_job worker_id actions session_id stamp ttl (held_job worker_id stamp db) db
