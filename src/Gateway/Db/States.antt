-- ===== src/Gateway/Db/States.antt =====
-- The values of the state columns (the CHECK lists of src/vgen/gateway/database.py).

pub data WorkerStatus : Type 0 where
  pending active offline draining revoked : WorkerStatus

-- `unattributed` is the value 'none'.
pub data Responsibility : Type 0 where
  consumer provider platform unattributed : Responsibility

pub data Role : Type 0 where
  owner admin member : Role

pub data PrincipalType : Type 0 where
  device service : PrincipalType

pub data Direction : Type 0 where
  input output : Direction

pub data ArtifactState : Type 0 where
  pending uploaded available failed deleted : ArtifactState

pub data CommandState : Type 0 where
  pending completed failed expired : CommandState

pub data JobState : Type 0 where
  awaiting_upload queued leased running restarting : JobState
  succeeded failed cancelled expired : JobState

pub data JobKind : Type 0 where
  worker_update model_install capability_install node_pack_install : JobKind
