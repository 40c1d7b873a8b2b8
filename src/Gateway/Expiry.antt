-- ===== src/Gateway/Expiry.antt =====
-- The sweep of the background thread (`_expire_maintenance_jobs` and `sweep_expired` of
-- src/vgen/gateway/repository.py). The pruning of authentication tables behind the transaction is
-- left out.
use vgen.Gateway.Db.{Db, Job, JobState, Command, CommandState}
use vgen.Gateway.Sweep.{expire_reservations, expire_leases}
use vgen.Gateway.Commands.{ensure_rekey_commands}
use vgen.Base.{
  [], ◌∷◌, ◌&&◌, none, some, true, false, if◌then◌else◌, Bool, ℕ, leb, passed, List, ltb,
}
use vgen.Table.{Table, count_keys, update_where, count_where}
use vgen.Gateway.Tx.{Body, ok}

abbrev pub is_open_job : JobState → Bool
is_open_job JobState.awaiting_upload = true
is_open_job JobState.queued = true
is_open_job JobState.leased = true
is_open_job JobState.running = true
is_open_job JobState.restarting = true
is_open_job _ = false

-- The states in which a worker's process holds the job.
abbrev pub is_held_job : JobState → Bool
is_held_job JobState.leased = true
is_held_job JobState.running = true
is_held_job JobState.restarting = true
is_held_job _ = false

abbrev pub is_window_over : ℕ → Job → Bool
is_window_over stamp j = is_open_job j.state && leb j.expires_at stamp

abbrev pub is_abandoned : ℕ → Job → Bool
is_abandoned stamp j =
    is_held_job j.state && passed j.lease_expires_at stamp && ltb stamp j.expires_at

abbrev pub expired_job : ℕ → Job → Job
expired_job stamp j = record j {
  state = JobState.expired;
  completed_at = some stamp;
  updated_at = stamp;
  lease_session_id = none;
  lease_expires_at = none;
}

abbrev pub requeued_job : ℕ → Job → Job
requeued_job stamp j = record j {
  state = JobState.queued;
  lease_session_id = none;
  lease_expires_at = none;
  heartbeat_at = none;
  updated_at = stamp;
}

abbrev pub close_windows : ℕ → Table Job → Table Job
close_windows stamp t = update_where (λ _ j. is_window_over stamp j) (expired_job stamp) t

abbrev pub requeue_abandoned : ℕ → Table Job → Table Job
requeue_abandoned stamp t = update_where (λ _ j. is_abandoned stamp j) (requeued_job stamp) t

-- The jobs whose window is over expire; a job whose lease alone has lapsed is queued again.
unfoldable pub expire_maintenance_jobs : ℕ → Db → Db × ℕ
unfolding count_keys
expire_maintenance_jobs stamp db = (
  record db { jobs = requeue_abandoned stamp (close_windows stamp db.jobs) },
  count_where (λ _ j. is_window_over stamp j) db.jobs,
)

abbrev pub is_pending : CommandState → Bool
is_pending CommandState.pending = true
is_pending _ = false

unfoldable pub expire_commands : ℕ → List Command → List Command
expire_commands stamp [] = []
expire_commands stamp (c ∷ cs) =
    let rest = expire_commands stamp cs in
    if is_pending c.state && passed c.expires_at stamp
    then record c { state = CommandState.expired } ∷ rest
    else c ∷ rest

pub record Swept : Type 0 where
  pub expired_leases : ℕ
  pub expired_maintenance_jobs : ℕ
  pub queued_broker_commands : ℕ

unfoldable pub sweep_expired : ℕ → Body Swept
unfolding expire_commands expire_reservations expire_leases expire_maintenance_jobs
    ensure_rekey_commands
sweep_expired stamp db =
    let expired = record db { commands = expire_commands stamp db.commands } in
    let (released, leases) = expire_leases stamp (expire_reservations stamp expired) in
    let (fenced, jobs) = expire_maintenance_jobs stamp released in
    let (queued, commands) = ensure_rekey_commands none stamp fenced in
    ok (
      record {
        expired_leases = leases;
        expired_maintenance_jobs = jobs;
        queued_broker_commands = commands;
      },
      queued,
    )
