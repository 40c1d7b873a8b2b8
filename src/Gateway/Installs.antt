-- ===== src/Gateway/Installs.antt =====
-- What a maintenance job asks for and what its worker reports (`WorkerMaintenanceSpec` and
-- `WorkerMaintenanceResult` of src/vgen/gateway/schemas.py). Of a specification, the fields that the
-- completion of a job reads.
use text.Mathlib.Text.{◌==◌ as str_eq}
use vgen.Base.{
  ℕ, String, Bool, true, false, ◌&&◌, ◌||◌, not, Option, none, some, List, [], ◌∷◌, ◌==◌, is_none,
  is_some,
}

pub data UpdateStatus : Type 0 where
  activated rolled_back failed : UpdateStatus

-- Of models and of node packs.
pub data InstallStatus : Type 0 where
  installed already_installed failed : InstallStatus

pub data CapabilityStatus : Type 0 where
  activated already_active repaired failed : CapabilityStatus

pub data JobSpec : Type 0 where
  update_spec : (target_version artifact_sha256 : String) → JobSpec
  model_spec : (model_digests : List String) → JobSpec
  capability_spec : (workflow_ref workflow_digest artifact_sha256 : String) → JobSpec
  node_pack_spec : (node_pack_ref artifact_sha256 : String) → JobSpec

pub data JobResult : Type 0 where
  update_result :
      UpdateStatus → (target_version artifact_sha256 : String) → (error_code : Option ℕ) → JobResult
  model_result :
      InstallStatus
      → (installed_model_digests : List String) → (failed_model_digest : Option String)
      → (error_code : Option ℕ) → JobResult
  capability_result :
      CapabilityStatus
      → (workflow_ref workflow_digest artifact_sha256 : String) → (ready : Option Bool)
      → (error_code : Option ℕ) → JobResult
  node_pack_result :
      InstallStatus
      → (node_pack_ref artifact_sha256 : String) → (loaded : Option Bool) → (error_code : Option ℕ)
      → (reason_code : Option String) → JobResult

abbrev has_text : String → List String → Bool
has_text x [] = false
has_text x (y ∷ ys) = str_eq x y || has_text x ys

-- `set(xs) <= set(ys)`
abbrev pub is_subset : List String → List String → Bool
is_subset [] ys = true
is_subset (x ∷ xs) ys = has_text x ys && is_subset xs ys

abbrev pub same_flag : Bool → Bool → Bool
same_flag true b = b
same_flag false b = not b

abbrev is_activated : UpdateStatus → Bool
is_activated UpdateStatus.activated = true
is_activated _ = false

abbrev is_installed : InstallStatus → Bool
is_installed InstallStatus.failed = false
is_installed _ = true

abbrev is_capable : CapabilityStatus → Bool
is_capable CapabilityStatus.failed = false
is_capable _ = true

abbrev is_requested : Option String → List String → Bool
is_requested none requested = true
is_requested (some digest) requested = has_text digest requested

abbrev is_loaded : Option Bool → Bool
is_loaded none = false
is_loaded (some b) = b

-- The result answers the specification; a result and a specification of two kinds share no field.
unfoldable pub matches_spec : JobSpec → JobResult → Bool → Bool
matches_spec (JobSpec.update_spec v sha) (JobResult.update_result status v' sha' error) succeeded =
    str_eq v' v && str_eq sha' sha && same_flag succeeded (is_activated status)
matches_spec (JobSpec.capability_spec r d sha)
      (JobResult.capability_result status r' d' sha' ready error) succeeded =
    str_eq r' r
    && str_eq d' d
    && str_eq sha' sha
    && same_flag succeeded (is_capable status)
    && ((is_capable status && is_some ready && is_none error)
        || (not (is_capable status) && is_none ready && is_some error))
matches_spec (JobSpec.node_pack_spec r sha)
      (JobResult.node_pack_result status r' sha' loaded error reason) succeeded =
    str_eq r' r
    && str_eq sha' sha
    && same_flag succeeded (is_installed status)
    && ((is_installed status && is_loaded loaded && is_none error)
        || (not (is_installed status) && is_none loaded && is_some error))
matches_spec (JobSpec.model_spec requested)
      (JobResult.model_result status installed_digests failed_digest error) succeeded =
    is_subset installed_digests requested
    && is_requested failed_digest requested
    && same_flag succeeded (is_installed status)
    && (not succeeded || is_subset requested installed_digests)
matches_spec _ _ succeeded = false

-- `stored_result == result`, field by field.
module _ where
  abbrev pub same_option : {A : Type 0} → (A → A → Bool) → Option A → Option A → Bool
  same_option eq none none = true
  same_option eq (some a) (some b) = eq a b
  same_option eq _ _ = false

  abbrev pub same_texts : List String → List String → Bool
  same_texts [] [] = true
  same_texts (x ∷ xs) (y ∷ ys) = str_eq x y && same_texts xs ys
  same_texts _ _ = false

  unfoldable pub update_index : UpdateStatus → ℕ
  update_index UpdateStatus.activated = 0
  update_index UpdateStatus.rolled_back = 1
  update_index UpdateStatus.failed = 2

  unfoldable pub install_index : InstallStatus → ℕ
  install_index InstallStatus.installed = 0
  install_index InstallStatus.already_installed = 1
  install_index InstallStatus.failed = 2

  unfoldable pub capability_index : CapabilityStatus → ℕ
  capability_index CapabilityStatus.activated = 0
  capability_index CapabilityStatus.already_active = 1
  capability_index CapabilityStatus.repaired = 2
  capability_index CapabilityStatus.failed = 3

  unfoldable pub same_number : ℕ → ℕ → Bool
  same_number a b = a == b

  unfoldable pub same_text : String → String → Bool
  same_text a b = str_eq a b

  unfoldable pub same_result : JobResult → JobResult → Bool
  unfolding update_index install_index capability_index same_number same_text
  same_result (JobResult.update_result s v sha e) (JobResult.update_result s' v' sha' e') =
      update_index s == update_index s'
      && str_eq v v'
      && str_eq sha sha'
      && same_option same_number e e'
  same_result (JobResult.model_result s ds f e) (JobResult.model_result s' ds' f' e') =
      install_index s == install_index s'
      && same_texts ds ds'
      && same_option same_text f f'
      && same_option same_number e e'
  same_result (JobResult.capability_result s r d sha b e)
        (JobResult.capability_result s' r' d' sha' b' e') =
      capability_index s == capability_index s'
      && str_eq r r'
      && str_eq d d'
      && str_eq sha sha'
      && same_option same_flag b b'
      && same_option same_number e e'
  same_result (JobResult.node_pack_result s r sha b e c)
        (JobResult.node_pack_result s' r' sha' b' e' c') =
      install_index s == install_index s'
      && str_eq r r'
      && str_eq sha sha'
      && same_option same_flag b b'
      && same_option same_number e e'
      && same_option same_text c c'
  same_result _ _ = false
