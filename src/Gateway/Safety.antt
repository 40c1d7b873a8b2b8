-- ===== src/Gateway/Safety.antt =====
-- The well-formedness of the scheduling database, as Boolean checks of each row against the rows
-- that it refers to. The modules below show that the gateway's transactions keep it.
pub mod Sweeps
pub mod Leases
pub mod Reports
pub mod Finishing
pub mod Consumers
pub mod Retries
pub mod Claims
pub mod Preparations
pub mod Maintenance
pub mod Artifacts
pub mod Releases
pub mod Departures
pub mod Runs
use vgen.Base.{
  ℕ, Bool, true, false, ◌&&◌, ◌||◌, not, Option, none, some, ◌≡◌, leb, ltb, ◌==◌, List, [], ◌∷◌,
  is_none, test, eq_null,
}
use vgen.Protocol.{TaskState, AttemptState, task_in, attempt_in}
use vgen.Gateway.Db.{Db, Task, Attempt, Lease, Worker}
use vgen.Table.Laws.{IsTable}
use vgen.Gateway.Sweep.{is_live}

-- A check of a row that may be absent.
abbrev pub fine {ℓ} : {A : Type ℓ} → (A → Bool) → Option A → Bool
fine p none = true
fine p (some a) = p a

infixr 32 ◌⇒◌
abbrev pub ◌⇒◌ : Bool → Bool → Bool
true ⇒ b = b
false ⇒ b = true

-- A leased attempt belongs to a reserved task, a running one to a running or a cancelled task.
abbrev pub task_agrees : Db → ℕ → Attempt → Bool
task_agrees db k a = elim a.state [
  | AttemptState.leased ↦
      test (λ t. task_in t.state (TaskState.reserved ∷ [])) (db.tasks.row a.task_id)
  | AttemptState.running ↦
      test (λ t. task_in t.state (TaskState.running ∷ TaskState.cancelled ∷ []))
        (db.tasks.row a.task_id)
  | _ ↦ true
]

-- A live attempt has a lease that is not released; a reserved one has none yet.
abbrev pub lease_agrees : Db → ℕ → Attempt → Bool
lease_agrees db k a = elim a.state [
  | AttemptState.reserved ↦ is_none (db.leases.row k)
  | AttemptState.leased ↦ test (λ l. is_none l.released_at) (db.leases.row k)
  | AttemptState.running ↦ test (λ l. is_none l.released_at) (db.leases.row k)
  | _ ↦ true
]

-- An attempt's token was drawn from its worker's counter.
abbrev pub token_drawn : Db → ℕ → Attempt → Bool
token_drawn db k a = test (λ w. leb a.fencing_token w.fencing_counter) (db.workers.row a.worker_id)

-- A lease that is not released carries the worker and the token of an attempt that is live.
abbrev pub lease_fenced : Db → ℕ → Lease → Bool
lease_fenced db k l =
    is_none l.released_at
    ⇒ test
        (λ a. is_live a.state && a.worker_id == l.worker_id && a.fencing_token == l.fencing_token)
        (db.attempts.row k)

-- An attempt that has not run has no start time.
abbrev pub unstarted : Attempt → Bool
unstarted a =
    attempt_in a.state (AttemptState.reserved ∷ AttemptState.leased ∷ []) ⇒ is_none a.started_at

-- A live attempt belongs to the worker that its task is assigned to.
abbrev pub worker_agrees : Db → Attempt → Bool
worker_agrees db a =
    is_live a.state ⇒ test (λ t. eq_null t.assigned_worker_id a.worker_id) (db.tasks.row a.task_id)

-- Two live attempts of one task are one.
abbrev pub one_live : ℕ → ℕ → Attempt → Attempt → Bool
one_live j k a b = is_live a.state && is_live b.state && a.task_id == b.task_id ⇒ j == k

-- Two attempts of a worker under one token are one.
abbrev pub one_token : ℕ → ℕ → Attempt → Attempt → Bool
one_token j k a b = a.worker_id == b.worker_id && a.fencing_token == b.fencing_token ⇒ j == k

abbrev pub pairwise : (ℕ → ℕ → Attempt → Attempt → Bool) → Db → ℕ → ℕ → Bool
pairwise p db j k = fine (λ a. fine (p j k a) (db.attempts.row k)) (db.attempts.row j)

-- The checks that the sweeps and the transactions keep, and that each table lists its rows once.
pub record IsConsistent (db : Db) : Type 0 where
  pub leases_table : IsTable db.leases
  pub attempts_table : IsTable db.attempts
  pub tasks_table : IsTable db.tasks
  pub tasks_agree : (k : ℕ) → fine (task_agrees db k) (db.attempts.row k) ≡ true
  pub leases_agree : (k : ℕ) → fine (lease_agrees db k) (db.attempts.row k) ≡ true
  pub tokens_drawn : (k : ℕ) → fine (token_drawn db k) (db.attempts.row k) ≡ true
  pub leases_fenced : (k : ℕ) → fine (lease_fenced db k) (db.leases.row k) ≡ true
  pub live_unique : (j k : ℕ) → pairwise one_live db j k ≡ true
  pub not_started : (k : ℕ) → fine unstarted (db.attempts.row k) ≡ true
  pub workers_agree : (k : ℕ) → fine (worker_agrees db) (db.attempts.row k) ≡ true
  pub attempts_drawn : (k : ℕ) → fine (λ _. ltb k db.fresh) (db.attempts.row k) ≡ true
  pub tasks_drawn : (k : ℕ) → fine (λ _. ltb k db.fresh) (db.tasks.row k) ≡ true
  pub leases_drawn : (k : ℕ) → fine (λ _. ltb k db.fresh) (db.leases.row k) ≡ true
  pub tokens_unique : (j k : ℕ) → pairwise one_token db j k ≡ true
