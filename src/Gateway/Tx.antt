-- ===== src/Gateway/Tx.antt =====
-- Errors of the repository (RepositoryError of src/vgen/gateway/repository.py, by their names) and
-- `GatewayDatabase.transaction` (src/vgen/gateway/database.py).
use vgen.Base.{◌≡◌, Bool, true, false, Option, none, some, refl, if◌then◌else◌, subst}
use vgen.Gateway.Db.{Db}

pub data Fault : Type 0 where
  workspace_access_denied workspace_admin_required workspace_owner_required : Fault
  service_workspace_access_denied task_access_denied : Fault
  task_not_found task_state_conflict reservation_expired input_artifact_not_uploaded : Fault
  worker_not_found worker_draining worker_offline worker_revoked : Fault
  attempt_state_conflict rekey_required lease_lost progress_invalid : Fault
  validation_failed output_artifact_invalid artifact_not_found idempotency_conflict : Fault
  internal_error usage_report_invalid no_eligible_worker rate_not_approved : Fault
  service_principal_invalid workspace_not_found pool_not_found worker_queue_full : Fault
  task_retry_content_unavailable maintenance_lease_lost maintenance_job_not_found : Fault
  maintenance_state_conflict maintenance_actions_invalid maintenance_result_invalid : Fault
  maintenance_artifact_not_uploaded broker_device_access_denied : Fault
  worker_manager_broker_required worker_access_denied : Fault
  worker_capabilities_required artifact_integrity_failed : Fault
  -- sqlite3.IntegrityError: a UNIQUE constraint does not hold
  integrity_error : Fault

pub data Result (A : Type 0) : Type 0 where
  ok : A → Result A
  raise : Fault → Result A

infixl 5 ◌>>=◌ ◌>>◌
abbrev pub ◌>>=◌ : {A B : Type 0} → Result A → (A → Result B) → Result B
ok a >>= f = f a
raise e >>= f = raise e

abbrev pub ◌>>◌ : {B : Type 0} → Result (Unit {0}) → Result B → Result B
m >> k = m >>= λ _. k

-- `if not condition: raise fault`
abbrev pub require : Bool → Fault → Result (Unit {0})
require true fault = ok tt
require false fault = raise fault

-- A row that must be there.
abbrev pub found : {A : Type 0} → Option A → Fault → Result A
found none fault = raise fault
found (some a) fault = ok a

-- A raise behind an UPDATE: ROLLBACK discards what was written.
abbrev pub raise_after : {A : Type 0} → Db → Fault → Result A
raise_after written fault = raise fault

-- What the body of a transaction computes: the value that it returns and the database that it
-- leaves, or the error that it raises.
abbrev pub Body : Type 0 → Type 0
Body A = Db → Result (A × Db)

unfoldable pub settle : {A : Type 0} → Db → Result (A × Db) → Result A × Db
settle before (ok (a, after)) = (ok a, after)
settle before (raise fault) = (raise fault, before)

-- COMMIT after a return, ROLLBACK after an exception.
unfoldable pub transaction : {A : Type 0} → Body A → Db → Result A × Db
unfolding settle
transaction body db = settle db (body db)

-- What is left of a transaction's result: the database.
abbrev pub after : {A : Type 0} → Body A → Db → Db
after body db = (transaction body db).1

-- What holds of the value and the database of a body that returns.
abbrev pub Returns : {A : Type 0} → (A → Db → Type 0) → Result (A × Db) → Type 0
Returns Q (ok (a, db)) = Q a db
Returns Q (raise fault) = Unit

pub record Ensures {A : Type 0} (Q : A → Db → Type 0) (m : Result (A × Db)) : Type 0 where
  pub at : Returns Q m

module _ {A : Type 0} {Q : A → Db → Type 0} where
  pub Ensures-ok : (a : A) (db : Db) → Q a db → Ensures Q (ok (a, db))
  Ensures-ok a db h = record { at = h }

  pub Ensures-raise : (fault : Fault) → Ensures Q (raise fault)
  Ensures-raise fault = record { at = tt }

  pub Ensures-require :
      (b : Bool) (fault : Fault) (m : Result (A × Db))
      → (b ≡ true → Ensures Q m)
      → Ensures Q (require b fault >> m)
  Ensures-require true fault m h = h refl
  Ensures-require false fault m h = Ensures-raise fault

  pub Ensures-found :
      {B : Type 0} (o : Option B) (fault : Fault) (k : B → Result (A × Db))
      → ((b : B) → o ≡ some b → Ensures Q (k b))
      → Ensures Q (found o fault >>= k)
  Ensures-found none fault k h = Ensures-raise fault
  Ensures-found (some b) fault k h = h b refl

  pub Ensures-bind :
      {B : Type 0} (m : Result B) (k : B → Result (A × Db))
      → ((b : B) → m ≡ ok b → Ensures Q (k b))
      → Ensures Q (m >>= k)
  Ensures-bind (ok b) k h = h b refl
  Ensures-bind (raise fault) k h = Ensures-raise fault

  pub Ensures-if :
      (b : Bool) (m n : Result (A × Db))
      → (b ≡ true → Ensures Q m)
      → (b ≡ false → Ensures Q n)
      → Ensures Q (if b then m else n)
  Ensures-if true m n h k = h refl
  Ensures-if false m n h k = k refl

  -- To use it at a body that returned.
  pub Ensures-at : (m : Result (A × Db)) {a : A} {db : Db} → m ≡ ok (a, db) → Ensures Q m → Q a db
  Ensures-at m e h = (subst (Ensures Q) e h).at

pub Ensures-mono :
    {A : Type 0} {P Q : A → Db → Type 0} (f : (a : A) (db : Db) → P a db → Q a db)
    (m : Result (A × Db))
    → Ensures P m
    → Ensures Q m
Ensures-mono f (ok (a, db)) h = record { at = f a db h.at }
Ensures-mono f (raise fault) h = record { at = tt }

-- The equation of a body that returned, beside what it ensures.
pub Ensures-with :
    {A : Type 0} {Q : A → Db → Type 0} (m : Result (A × Db))
    → Ensures Q m
    → Ensures (λ a db. Q a db × (m ≡ ok (a, db))) m
Ensures-with (ok (a, db)) h = record { at = (h.at, refl) }
Ensures-with (raise fault) h = record { at = tt }
