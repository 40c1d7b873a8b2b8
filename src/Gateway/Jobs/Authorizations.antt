-- ===== src/Gateway/Jobs/Authorizations.antt =====
-- What a completed installation authorizes a worker to run (`_record_maintenance_authorizations` of
-- src/vgen/gateway/repository.py).
use text.Mathlib.Text.{◌==◌ as str_eq}
use vgen.Base.{
  [], ◌∷◌, none, some, true, false, ◌==◌, ◌&&◌, if◌then◌else◌, String, ℕ, Bool, List, Option,
}
use vgen.Gateway.Db.{JobKind, WorkflowAuthorization, ModelAuthorization, Job, Db}
use vgen.Gateway.Installs.{JobSpec}

-- What `_bound_capability_identifiers` finds in a specification.
pub record Identifiers : Type 0 where
  pub workflow_ref : String
  pub workflow_digest : String
  pub model_digests : List String
  pub node_classes : List String

-- `_maintenance_intent_is_historically_valid` (a signature of the row's authorization against its
-- owner's key) and `_bound_capability_identifiers` (patterns and a hash of the specification).
pub record Authority : Type 0 where
  pub intent_is_historically_valid : ℕ → Job → Bool
  pub bound_identifiers : JobSpec → Option Identifiers

abbrev pub is_capability : JobKind → Bool
is_capability JobKind.capability_install = true
is_capability _ = false

module _ where
  abbrev same_workflow : WorkflowAuthorization → WorkflowAuthorization → Bool
  same_workflow a b =
      a.worker_id == b.worker_id
      && a.authorization_source_id == b.authorization_source_id
      && str_eq a.workflow_ref b.workflow_ref
      && str_eq a.workflow_digest b.workflow_digest

  abbrev same_model : ModelAuthorization → ModelAuthorization → Bool
  same_model a b =
      a.worker_id == b.worker_id
      && a.authorization_source_id == b.authorization_source_id
      && str_eq a.workflow_ref b.workflow_ref
      && str_eq a.workflow_digest b.workflow_digest
      && str_eq a.model_digest b.model_digest

-- INSERT OR IGNORE: a row whose primary key is there is not inserted.
insert_or_ignore : {A : Type 0} → (A → A → Bool) → A → List A → List A
insert_or_ignore same a [] = a ∷ []
insert_or_ignore same a (b ∷ bs) =
    let rest = insert_or_ignore same a bs in if same b a then b ∷ bs else b ∷ rest

authorize_models :
    ℕ → Job → Identifiers → ℕ → List String → List ModelAuthorization → List ModelAuthorization
unfolding insert_or_ignore
authorize_models job_id j ids stamp [] rows = rows
authorize_models job_id j ids stamp (digest ∷ digests) rows =
    authorize_models job_id j ids stamp digests (
      insert_or_ignore same_model
        (record {
          worker_id = j.worker_id;
          authorization_source_id = job_id;
          workflow_ref = ids.workflow_ref;
          workflow_digest = ids.workflow_digest;
          model_digest = digest;
          spec_digest = j.spec_digest;
          authorized_at = stamp;
        })
        rows)

authorize_workflow :
    ℕ → Job → Identifiers → ℕ → List WorkflowAuthorization → List WorkflowAuthorization
unfolding insert_or_ignore
authorize_workflow job_id j ids stamp rows =
    if is_capability j.kind
    then insert_or_ignore same_workflow
        (record {
          worker_id = j.worker_id;
          authorization_source_id = job_id;
          workflow_ref = ids.workflow_ref;
          workflow_digest = ids.workflow_digest;
          spec_digest = j.spec_digest;
          node_classes = ids.node_classes;
          authorized_at = stamp;
        })
        rows
    else rows

unfoldable pub record_maintenance_authorizations : ℕ → Job → Option Identifiers → ℕ → Db → Db
unfolding authorize_models authorize_workflow
record_maintenance_authorizations job_id j none stamp db = db
record_maintenance_authorizations job_id j (some ids) stamp db = record db {
  workflow_authorizations = authorize_workflow job_id j ids stamp db.workflow_authorizations;
  model_authorizations =
      authorize_models job_id j ids stamp ids.model_digests db.model_authorizations;
}
