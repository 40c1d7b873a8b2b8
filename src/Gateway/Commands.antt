-- ===== src/Gateway/Commands.antt =====
-- The commands that ask a broker to rewrap a task's key for another worker
-- (`_enqueue_task_rekey_command` and `_ensure_rekey_commands` of src/vgen/gateway/repository.py).
pub mod Offers
use vgen.Base.{
  ℕ, ◌+◌, String, Bool, true, false, ◌&&◌, ◌||◌, not, Option, none, some, List, [], ◌∷◌, leb, ltb,
  ◌==◌, if◌then◌else◌, ahead, is_some, eq_null,
}
use vgen.Table.{select_where, select_keys, exists_where, exists_key, select_first}
use vgen.Protocol.{TaskState, AttemptState, task_in, attempt_in}
use vgen.Gateway.Db.{Db, Task, Attempt, Command, CommandState, BrokerDevice, seconds}

-- ON CONFLICT(command_key): only an expired command is written anew.
unfoldable pub same_command : Command → Command → Bool
same_command c d = c.task_id == d.task_id && same_source c.source_attempt_id d.source_attempt_id
  where
    same_source : Option ℕ → Option ℕ → Bool
    same_source none none = true
    same_source (some a) (some b) = a == b
    same_source _ _ = false

abbrev pub is_expired_command : CommandState → Bool
is_expired_command CommandState.expired = true
is_expired_command _ = false

unfoldable pub upsert_command : Command → List Command → List Command
unfolding same_command
upsert_command new [] = new ∷ []
upsert_command new (c ∷ cs) =
    let rest = upsert_command new cs in
    if same_command c new
    then (if is_expired_command c.state
        then record c {
          broker_device_id = new.broker_device_id;
          key_version = new.key_version;
          reason = new.reason;
          state = CommandState.pending;
          created_at = new.created_at;
          expires_at = new.expires_at;
        }
        else c)
      ∷ cs
    else c ∷ rest

-- The freshest active broker device of a user, seen in the last 300 seconds.
abbrev fresher : ℕ × BrokerDevice → ℕ × BrokerDevice → Bool
fresher (_, d) (_, e) = later d.last_seen_at e.last_seen_at
  where
    later : Option ℕ → Option ℕ → Bool
    later (some s) (some u) = ltb u s || (s == u && ltb e.created_at d.created_at)
    later _ _ = false

unfoldable pub rekey_broker_device : ℕ → ℕ → Db → Option (ℕ × BrokerDevice)
unfolding select_first
rekey_broker_device user_id stamp db =
    select_first fresher
      (λ _ d. d.owner_user_id == user_id && d.active && seen_recently d.last_seen_at)
      db.broker_devices
  where
    seen_recently : Option ℕ → Bool
    seen_recently none = false
    seen_recently (some seen) = leb stamp (seen + seconds 300)

unfoldable pub send_command :
    Task → ℕ → Option ℕ → String → ℕ → Db → Option (ℕ × BrokerDevice) → Db × ℕ
unfolding upsert_command
send_command t task_id source reason stamp db none = (db, 0)
send_command t task_id source reason stamp db (some (device_id, _)) = (
  record db {
    commands =
        upsert_command
          (record {
            task_id = task_id;
            source_attempt_id = source;
            broker_device_id = device_id;
            key_version = t.content_key_version;
            reason = reason;
            state = CommandState.pending;
            created_at = stamp;
            expires_at = some (stamp + seconds 3600);
          })
          db.commands;
  },
  1,
)

unfoldable pub route_command : Option Task → Option ℕ → ℕ → Option ℕ → String → ℕ → Db → Db × ℕ
unfolding rekey_broker_device send_command
route_command none _ task_id source reason stamp db = (db, 0)
route_command (some t) none task_id source reason stamp db = (db, 0)
route_command (some t) (some user_id) task_id source reason stamp db =
    if task_in t.state (TaskState.rekey_required ∷ [])
    then send_command t task_id source reason stamp db (rekey_broker_device user_id stamp db)
    else (db, 0)

abbrev pub consumer_of : Option Task → Option ℕ
consumer_of none = none
consumer_of (some t) = t.consumer_user_id

-- Queues one command at most, for the consumer's freshest broker device; the number is the
-- statement's row count.
unfoldable pub enqueue_task_rekey_command : ℕ → Option ℕ → String → ℕ → Db → Db × ℕ
unfolding route_command
enqueue_task_rekey_command task_id source reason stamp db =
    let t = db.tasks.row task_id in route_command t (consumer_of t) task_id source reason stamp db

abbrev later_attempt : ℕ × Attempt → ℕ × Attempt → Bool
later_attempt (_, a) (_, b) = ltb b.attempt_number a.attempt_number

-- The attempt of a task with the greatest number.
unfoldable pub last_attempt : ℕ → Db → Option (ℕ × Attempt)
unfolding select_first
last_attempt task_id db = select_first later_attempt (λ _ a. a.task_id == task_id) db.attempts

abbrev pub key_of : Option (ℕ × Attempt) → Option ℕ
key_of none = none
key_of (some (k, _)) = some k

-- The tasks (of one consumer, if it is given) that wait for a rekey with no reserved attempt under a running reservation.
unfoldable pub needs_rekey_command : Option ℕ → ℕ → Db → ℕ → Task → Bool
unfolding exists_key
needs_rekey_command consumer stamp db task_id t =
    task_in t.state (TaskState.rekey_required ∷ [])
    && is_some t.consumer_user_id
    && not (
        ahead t.reservation_expires_at stamp
        && exists_where
            (λ _ a. a.task_id == task_id && attempt_in a.state (AttemptState.reserved ∷ []))
            db.attempts)
    && is_consumer consumer
  where
    is_consumer : Option ℕ → Bool
    is_consumer none = true
    is_consumer (some user_id) = eq_null t.consumer_user_id user_id

unfoldable pub enqueue_each : ℕ → List ℕ → Db → Db × ℕ
unfolding enqueue_task_rekey_command last_attempt
enqueue_each stamp [] db = (db, 0)
enqueue_each stamp (task_id ∷ rest) db =
    let (db', n) =
      enqueue_task_rekey_command task_id (key_of (last_attempt task_id db)) "rekey_required" stamp
        db in
    let (db'', m) = enqueue_each stamp rest db' in (db'', n + m)

unfoldable pub ensure_rekey_commands : Option ℕ → ℕ → Db → Db × ℕ
unfolding enqueue_each needs_rekey_command select_keys
ensure_rekey_commands consumer stamp db =
    enqueue_each stamp (select_where (needs_rekey_command consumer stamp db) db.tasks) db
