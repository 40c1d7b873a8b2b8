-- ===== src/Gateway/Artifacts.antt =====
-- The artifacts of tasks and their reservation (`reserve_input_artifacts`, `reserve_output_artifacts`
-- and `refresh_output_artifacts` of src/vgen/gateway/repository.py).
pub mod Counts
use text.Mathlib.Text.{◌==◌ as str_eq}
use vgen.Base.{
  ℕ, zero, suc, ◌+◌, ◌-◌, String, Bool, true, false, ◌&&◌, ◌||◌, not, Option, none, some, List, [],
  ◌∷◌, ◌==◌, if◌then◌else◌, min, max, length, eq_null, is_none, ahead, test, ltb, is_some,
}
use vgen.Table.{insert, update_row, update_where, select_sorted, select_first}
use vgen.Protocol.{TaskState, task_in}
use vgen.Gateway.Db.{
  Db, Artifact, ArtifactState, Direction, Task, Lease, Job, JobState, MaintenanceArtifact,
}
use vgen.Gateway.Installs.{JobSpec, JobResult, UpdateStatus, InstallStatus, CapabilityStatus}
use vgen.Gateway.Tx.{
  Body, Result, ok, raise, ◌>>=◌, ◌>>◌, require, found, task_state_conflict, lease_lost,
  artifact_not_found, artifact_integrity_failed,
}
use vgen.Gateway.Rekey.{take}

-- What a consumer says of an input; its metadata as `_artifact_media_metadata` leaves it.
pub record InputDescriptor : Type 0 where
  pub kind : String
  pub encrypted_size : ℕ
  pub media_metadata : List (String × String)

abbrev pub new_input : ℕ → String → String → InputDescriptor → ℕ → Artifact
new_input task_id store_type object_ref d stamp = record {
  task_id = task_id;
  attempt_id = none;
  kind = d.kind;
  direction = Direction.input;
  store_type = store_type;
  object_ref = object_ref;
  content_digest = none;
  encrypted_size = some d.encrypted_size;
  media_metadata = d.media_metadata;
  state = ArtifactState.pending;
  created_at = stamp;
  updated_at = stamp;
}

-- One row for each descriptor, which refers to its object by its own identifier; `text_of` is the
-- text of an identifier. The answer is the list of the new identifiers.
unfoldable pub store_inputs :
    (ℕ → String) → ℕ → String → ℕ → List InputDescriptor → Db → List ℕ × Db
store_inputs text_of task_id store_type stamp [] db = ([], db)
store_inputs text_of task_id store_type stamp (d ∷ ds) db =
    let (ids, after) = store_inputs text_of task_id store_type stamp ds (record db {
      artifacts =
          insert db.fresh (new_input task_id store_type (text_of db.fresh) d stamp) db.artifacts;
      fresh = suc db.fresh;
    }) in
    (db.fresh ∷ ids, after)

unfoldable pub reserve_input_artifacts :
    (ℕ → String) → ℕ → List InputDescriptor → String → ℕ → Body (List ℕ)
unfolding store_inputs
reserve_input_artifacts text_of task_id descriptors store_type stamp db = do
  t ← found (db.tasks.row task_id) task_state_conflict
  require (task_in t.state (TaskState.prepared ∷ [])) task_state_conflict
  ok (store_inputs text_of task_id store_type stamp descriptors db)

abbrev is_output : Direction → Bool
is_output Direction.output = true
is_output Direction.input = false

abbrev pub is_transferable : ArtifactState → Bool
is_transferable ArtifactState.pending = true
is_transferable ArtifactState.uploaded = true
is_transferable _ = false

abbrev pub is_open_output : ℕ → Artifact → Bool
is_open_output attempt_id a =
    eq_null a.attempt_id attempt_id && is_output a.direction && is_transferable a.state

abbrev pub artifact_before : ℕ × Artifact → ℕ × Artifact → Bool
artifact_before (_, a) (_, b) = ltb a.created_at b.created_at

unfoldable pub open_outputs : ℕ → Db → List (ℕ × Artifact)
unfolding select_sorted
open_outputs attempt_id db =
    select_sorted artifact_before (λ _ a. is_open_output attempt_id a) db.artifacts

-- f"output_{index}" of the eight indices that occur.
abbrev output_kind : ℕ → String
output_kind zero = "output_0"
output_kind (suc zero) = "output_1"
output_kind (suc (suc zero)) = "output_2"
output_kind (suc (suc (suc zero))) = "output_3"
output_kind (suc (suc (suc (suc zero)))) = "output_4"
output_kind (suc (suc (suc (suc (suc zero))))) = "output_5"
output_kind (suc (suc (suc (suc (suc (suc zero)))))) = "output_6"
output_kind _ = "output_7"

abbrev pub new_output : ℕ → ℕ → ℕ → String → String → ℕ → Artifact
new_output task_id attempt_id index store_type object_ref stamp = record {
  task_id = task_id;
  attempt_id = some attempt_id;
  kind = output_kind index;
  direction = Direction.output;
  store_type = store_type;
  object_ref = object_ref;
  content_digest = none;
  encrypted_size = none;
  media_metadata = [];
  state = ArtifactState.pending;
  created_at = stamp;
  updated_at = stamp;
}

-- `for index in range(index, index + missing)`
unfoldable pub store_outputs : (ℕ → String) → ℕ → ℕ → String → ℕ → (index missing : ℕ) → Db → Db
store_outputs text_of task_id attempt_id store_type stamp index zero db = db
store_outputs text_of task_id attempt_id store_type stamp index (suc missing) db =
    store_outputs text_of task_id attempt_id store_type stamp (index + 1) missing (record db {
      artifacts =
          insert db.fresh (new_output task_id attempt_id index store_type (text_of db.fresh) stamp)
            db.artifacts;
      fresh = suc db.fresh;
    })

-- `min(max(int(count), 1), 8)`
abbrev pub clamped : ℕ → ℕ
clamped count = min (max count 1) 8

-- The rows that are missing are added; the answer lists the open ones, `count` at most.
unfoldable pub reserve_output_artifacts :
    (ℕ → String) → ℕ → ℕ → ℕ → String → ℕ → Body (List (ℕ × Artifact))
unfolding open_outputs store_outputs take
reserve_output_artifacts text_of task_id attempt_id count store_type stamp db =
    let existing = length (open_outputs attempt_id db) in
    let filled =
      store_outputs text_of task_id attempt_id store_type stamp existing (clamped count - existing)
        db in
    ok (take (clamped count) (open_outputs attempt_id filled), filled)

abbrev is_pending_output : ℕ → Artifact → Bool
is_pending_output attempt_id a =
    eq_null a.attempt_id attempt_id && is_output a.direction && is_pending a.state
  where
    is_pending : ArtifactState → Bool
    is_pending ArtifactState.pending = true
    is_pending _ = false

abbrev holds_lease : ℕ → ℕ → Lease → Bool
holds_lease worker_id stamp l =
    l.worker_id == worker_id && is_none l.released_at && ltb stamp l.expires_at

unfoldable pub refresh_output_artifacts : ℕ → ℕ → ℕ → Db → Result (List (ℕ × Artifact))
unfolding select_sorted
refresh_output_artifacts attempt_id worker_id stamp db = do
  require
      (test (holds_lease worker_id stamp) (db.leases.row attempt_id)
        && is_some (db.attempts.row attempt_id))
      lease_lost
  ok (select_sorted artifact_before (λ _ a. is_pending_output attempt_id a) db.artifacts)
