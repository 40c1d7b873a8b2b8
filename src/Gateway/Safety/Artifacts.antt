-- ===== src/Gateway/Safety/Artifacts.antt =====
-- The reservation of artifacts keeps the scheduling database consistent (`reserve_input_artifacts`
-- and `reserve_output_artifacts` of src/vgen/gateway/repository.py).
use vgen.Base.{[], ◌∷◌, arith, zero, suc, ◌+◌, ◌-◌, ℕ, String, List, length}
use vgen.Table.{Table}
use vgen.Gateway.Artifacts.{
  store_inputs, store_outputs, reserve_input_artifacts, reserve_output_artifacts, InputDescriptor,
  open_outputs, clamped,
}
use vgen.Gateway.Db.{Artifact, Db}
use vgen.Gateway.Safety.{IsConsistent, task_in, TaskState}
use vgen.Gateway.Tx.{Ensures, Ensures-found, Ensures-ok, task_state_conflict, Ensures-require}
use vgen.Gateway.Safety.Leases.{Kept}

-- A row of the artifacts under the next identifier.
IsConsistent-artifact :
    (t : Table Artifact) {db : Db}
    → IsConsistent db
    → IsConsistent (record db { artifacts = t; fresh = suc db.fresh })
IsConsistent-artifact t {db} h = record {
  leases_table = h.leases_table;
  attempts_table = h.attempts_table;
  tasks_table = h.tasks_table;
  tasks_agree = h.tasks_agree;
  leases_agree = h.leases_agree;
  tokens_drawn = h.tokens_drawn;
  leases_fenced = h.leases_fenced;
  live_unique = h.live_unique;
  not_started = h.not_started;
  workers_agree = h.workers_agree;
  attempts_drawn = λ k. ground (arith, h.attempts_drawn k);
  tasks_drawn = λ k. ground (arith, h.tasks_drawn k);
  leases_drawn = λ k. ground (arith, h.leases_drawn k);
  tokens_unique = h.tokens_unique;
}

store_inputs-IsConsistent :
    (text_of : ℕ → String) (task_id : ℕ) (store_type : String) (stamp : ℕ)
    (ds : List InputDescriptor) (db : Db)
    → IsConsistent db
    → IsConsistent (store_inputs text_of task_id store_type stamp ds db).1
unfolding store_inputs
store_inputs-IsConsistent text_of task_id store_type stamp [] db h = h
store_inputs-IsConsistent text_of task_id store_type stamp (d ∷ ds) db h =
    store_inputs-IsConsistent text_of task_id store_type stamp ds _ (IsConsistent-artifact _ h)

store_outputs-IsConsistent :
    (text_of : ℕ → String) (task_id attempt_id : ℕ) (store_type : String) (stamp index missing : ℕ)
    (db : Db)
    → IsConsistent db
    → IsConsistent (store_outputs text_of task_id attempt_id store_type stamp index missing db)
unfolding store_outputs
store_outputs-IsConsistent text_of task_id attempt_id store_type stamp index zero db h = h
store_outputs-IsConsistent text_of task_id attempt_id store_type stamp index (suc missing) db h =
    store_outputs-IsConsistent text_of task_id attempt_id store_type stamp (index + 1) missing _
      (IsConsistent-artifact _ h)

pub reserve_inputs-IsConsistent :
    (text_of : ℕ → String) (task_id : ℕ) (ds : List InputDescriptor) (store_type : String)
    (stamp : ℕ) (db : Db)
    → IsConsistent db
    → Ensures Kept (reserve_input_artifacts text_of task_id ds store_type stamp db)
unfolding reserve_input_artifacts
reserve_inputs-IsConsistent text_of task_id ds store_type stamp db h =
    Ensures-found (db.tasks.row task_id) task_state_conflict _ λ t row.
      Ensures-require (task_in t.state (TaskState.prepared ∷ [])) task_state_conflict _ λ prepared.
        Ensures-ok _ _ (store_inputs-IsConsistent text_of task_id store_type stamp ds db h)

pub reserve_outputs-IsConsistent :
    (text_of : ℕ → String) (task_id attempt_id count : ℕ) (store_type : String) (stamp : ℕ)
    (db : Db)
    → IsConsistent db
    → Ensures Kept (reserve_output_artifacts text_of task_id attempt_id count store_type stamp db)
unfolding reserve_output_artifacts
reserve_outputs-IsConsistent text_of task_id attempt_id count store_type stamp db h =
    Ensures-ok _ _ (
      store_outputs-IsConsistent text_of task_id attempt_id store_type stamp
        (length (open_outputs attempt_id db)) (clamped count - length (open_outputs attempt_id db))
        db h)
