-- ===== src/Gateway/Commands/Offers.antt =====
-- The sweep offers a command for each task that waits for a rekey (`_ensure_rekey_commands` and
-- `_sweep_expired` of src/vgen/gateway/repository.py).
use vgen.Base.{
  [], ◌∷◌, ◌==◌, ◌&&◌, ◌||◌, ◌≡◌, inl, inr, true, false, refl, arith, ℕ, Bool, Bool-cases, List,
  Option, String, none, some, not, ==→eq, is_some, subst, sym, ◌∙◌, ◌+◌, ◌≤◌, Option-cases,
}
use vgen.Gateway.Commands.{
  fresher, upsert_command, Command, same_command, send_command, route_command,
  enqueue_task_rekey_command, enqueue_each, Db, is_expired_command, Task, key_of, last_attempt,
  BrokerDevice, task_in, rekey_broker_device, TaskState, ensure_rekey_commands, needs_rekey_command,
  select_where,
}
use vgen.Table.Laws.{mentions, IsTable, mentions-select_true}
use vgen.Gateway.Safety.Sweeps.{
  enqueue-eq, expire_leases-IsConsistent, expire_reservations-IsConsistent, IsConsistent-same,
}
use vgen.Gateway.Expiry.{sweep_expired, Swept, expire_maintenance_jobs, expire_commands}
use vgen.Gateway.Safety.{IsConsistent}
use vgen.Gateway.Tx.{ok, Ensures-at, Ensures-ok}
use vgen.Gateway.Sweep.{expire_leases, expire_reservations}
use vgen.Gateway.Safety.Claims.{expire_maintenance_jobs-IsConsistent}
use vgen.Table.Select.{select_first-found}

abbrev same_source : Option ℕ → Option ℕ → Bool
same_source none none = true
same_source (some a) (some b) = a == b
same_source _ _ = false

-- A command asks to rekey the task after the attempt, and is not expired.
abbrev asks : ℕ → Option ℕ → Command → Bool
asks task_id source c =
    c.task_id == task_id
    && same_source c.source_attempt_id source
    && not (is_expired_command c.state)

abbrev pub is_offered : ℕ → Option ℕ → List Command → Bool
is_offered task_id source [] = false
is_offered task_id source (c ∷ cs) = asks task_id source c || is_offered task_id source cs

module _ (task_id : ℕ) (source : Option ℕ) where
  is_offered-upsert_kept :
      (new : Command) (cs : List Command)
      → is_offered task_id source cs ≡ true
      → is_offered task_id source (upsert_command new cs) ≡ true
  unfolding upsert_command
  is_offered-upsert_kept new [] h = ground arith
  is_offered-upsert_kept new (c ∷ cs) h = elim (Bool-cases (same_command c new)) [
    | inl same ↦ elim (Bool-cases (is_expired_command c.state)) [
      | inl renewed ↦ rw (same, renewed) (ground arith)
      | inr kept ↦ rw (same, kept) h
    ]
    | inr other ↦ rw other (ground (arith, is_offered-upsert_kept new cs))
  ]

  is_offered-upsert_own :
      (new : Command) (cs : List Command)
      → asks task_id source new ≡ true
      → is_offered task_id source (upsert_command new cs) ≡ true
  unfolding upsert_command same_command
  is_offered-upsert_own new [] h = rw h refl
  is_offered-upsert_own new (c ∷ cs) h = elim (Bool-cases (same_command c new)) [
    | inl same ↦ elim (Bool-cases (is_expired_command c.state)) [
      | inl renewed ↦ rw (same, renewed) (ground arith)
      | inr kept ↦ rw (same, kept) (ground arith)
    ]
    | inr other ↦ rw other (ground (arith, is_offered-upsert_own new cs h))
  ]

  module _ (other : ℕ) (from : Option ℕ) (reason : String) (stamp : ℕ) where
    send_command-kept :
        (t : Task) (o : Option (ℕ × BrokerDevice)) (db : Db)
        → is_offered task_id source db.commands ≡ true
        → is_offered task_id source (send_command t other from reason stamp db o).0.commands ≡ true
    unfolding send_command
    send_command-kept t none db h = h
    send_command-kept t (some (device_id, d)) db h = is_offered-upsert_kept _ db.commands h

    route_command-kept :
        (o : Option Task) (consumer : Option ℕ) (db : Db)
        → is_offered task_id source db.commands ≡ true
        → is_offered task_id source (route_command o consumer other from reason stamp db).0.commands
          ≡ true
    unfolding route_command
    route_command-kept none consumer db h = h
    route_command-kept (some t) none db h = h
    route_command-kept (some t) (some user_id) db h =
        elim (Bool-cases (task_in t.state (TaskState.rekey_required ∷ []))) [
          | inl waiting ↦
              rw waiting (send_command-kept t (rekey_broker_device user_id stamp db) db h)
          | inr idle ↦ rw idle h
        ]

    enqueue-kept :
        (db : Db)
        → is_offered task_id source db.commands ≡ true
        → is_offered task_id source
            (enqueue_task_rekey_command other from reason stamp db).0.commands
          ≡ true
    unfolding enqueue_task_rekey_command
    enqueue-kept db h = route_command-kept (db.tasks.row other) _ db h

  enqueue_each-kept :
      (stamp : ℕ) (ks : List ℕ) (db : Db)
      → is_offered task_id source db.commands ≡ true
      → is_offered task_id source (enqueue_each stamp ks db).0.commands ≡ true
  unfolding enqueue_each
  enqueue_each-kept stamp [] db h = h
  enqueue_each-kept stamp (k ∷ ks) db h =
      enqueue_each-kept stamp ks _
        (enqueue-kept k (key_of (last_attempt k db)) "rekey_required" stamp db h)

-- A task that waits for a rekey under no reservation, and whose consumer has an active broker device
-- that was seen in the last 300 seconds.
pub record Due (stamp k : ℕ) (db : Db) : Type 0 where
  pub task : Task
  pub user_id : ℕ
  pub n : ℕ
  pub device : BrokerDevice
  pub seen : ℕ
  pub task_row : db.tasks.row k ≡ some task
  pub waits : task.state ≡ TaskState.rekey_required
  pub free : task.reservation_expires_at ≡ none
  pub consumer : task.consumer_user_id ≡ some user_id
  pub device_row : db.broker_devices.row n ≡ some device
  pub device_listed : mentions n db.broker_devices.keys ≡ true
  pub owned : device.owner_user_id ≡ user_id
  pub active : device.active ≡ true
  pub last_seen : device.last_seen_at ≡ some seen
  pub fresh : stamp ≤ seen + 300000000

Due-device :
    (stamp k : ℕ) (db : Db) (due : Due stamp k db)
    → is_some (rekey_broker_device due.user_id stamp db) ≡ true
unfolding rekey_broker_device
Due-device stamp k db due =
    select_first-found fresher _ db.broker_devices due.n due.device due.device_row
      (rw (due.last_seen, due.active) (ground (arith, due.owned, due.fresh))) due.device_listed

same_source_refl : (o : Option ℕ) → same_source o o ≡ true
same_source_refl none = refl
same_source_refl (some a) = ground arith

enqueue-offers :
    (stamp k : ℕ) (source : Option ℕ) (reason : String) (db : Db)
    → Due stamp k db
    → is_offered k source (enqueue_task_rekey_command k source reason stamp db).0.commands ≡ true
unfolding enqueue_task_rekey_command route_command send_command
enqueue-offers stamp k source reason db due =
    elim (Option-cases (rekey_broker_device due.user_id stamp db)) [
      | inl e ↦ ground (arith, Due-device stamp k db due)
      | inr (device, e) ↦
          rw (due.task_row, due.consumer, due.waits, e)
            (is_offered-upsert_own k source _ db.commands (ground (arith, same_source_refl source)))
    ]

enqueue_each-offers :
    (stamp k : ℕ) (ks : List ℕ) (db : Db)
    → Due stamp k db
    → mentions k ks ≡ true
    → is_offered k (key_of (last_attempt k db)) (enqueue_each stamp ks db).0.commands ≡ true
unfolding enqueue_each last_attempt rekey_broker_device
enqueue_each-offers stamp k [] db due m = ground arith
enqueue_each-offers stamp k (j ∷ ks) db due m = elim (Bool-cases (j == k)) [
  | inl here ↦ enqueue_each-kept k (key_of (last_attempt k db)) stamp ks _ (
      subst
        (λ i.
          is_offered k (key_of (last_attempt k db))
            (enqueue_task_rekey_command i (key_of (last_attempt i db)) "rekey_required" stamp
              db).0.commands
          ≡ true)
        (sym (==→eq j k here))
        (enqueue-offers stamp k (key_of (last_attempt k db)) "rekey_required" db due))
  | inr there ↦ rw (enqueue-eq j (key_of (last_attempt j db)) "rekey_required" stamp db) (
      enqueue_each-offers stamp k ks
        (record db {
          commands =
              (enqueue_task_rekey_command j (key_of (last_attempt j db)) "rekey_required" stamp
                db).0.commands;
        })
        (record {
          task = due.task;
          user_id = due.user_id;
          n = due.n;
          device = due.device;
          seen = due.seen;
          task_row = due.task_row;
          waits = due.waits;
          free = due.free;
          consumer = due.consumer;
          device_row = due.device_row;
          device_listed = due.device_listed;
          owned = due.owned;
          active = due.active;
          last_seen = due.last_seen;
          fresh = due.fresh;
        })
        (ground arith))
]

enqueue_each-eq :
    (stamp : ℕ) (ks : List ℕ) (db : Db)
    → (enqueue_each stamp ks db).0 ≡ record db { commands = (enqueue_each stamp ks db).0.commands }
unfolding enqueue_each
enqueue_each-eq stamp [] db = refl
enqueue_each-eq stamp (k ∷ ks) db =
    enqueue_each-eq stamp ks _
    ∙ rw (enqueue-eq k (key_of (last_attempt k db)) "rekey_required" stamp db) refl

-- What a sweep leaves: the former database with other commands.
Due-same :
    (stamp k : ℕ) (db : Db) (cs : List Command)
    → Due stamp k (record db { commands = cs })
    → Due stamp k db
Due-same stamp k db cs due = record {
  task = due.task;
  user_id = due.user_id;
  n = due.n;
  device = due.device;
  seen = due.seen;
  task_row = due.task_row;
  waits = due.waits;
  free = due.free;
  consumer = due.consumer;
  device_row = due.device_row;
  device_listed = due.device_listed;
  owned = due.owned;
  active = due.active;
  last_seen = due.last_seen;
  fresh = due.fresh;
}

ensure_rekey_commands-offers :
    (stamp k : ℕ) (db : Db)
    → IsTable db.tasks
    → Due stamp k db
    → is_offered k (key_of (last_attempt k db)) (ensure_rekey_commands none stamp db).0.commands
      ≡ true
unfolding ensure_rekey_commands needs_rekey_command
ensure_rekey_commands-offers stamp k db h due =
    enqueue_each-offers stamp k (select_where (needs_rekey_command none stamp db) db.tasks) db due (
      mentions-select_true (needs_rekey_command none stamp db) db.tasks.row k db.tasks.keys
        (h.listed k ∙ rw due.task_row refl)
        (rw (due.task_row, due.waits, due.consumer, due.free) refl))

-- After a sweep of a consistent database, a task that waits for a rekey under no reservation, and whose
-- consumer has an active broker device that was seen in the last 300 seconds, has a command that asks
-- to rekey the task after its last attempt and that is not expired.
pub sweep_expired-offers :
    (stamp k : ℕ) (db db' : Db) (s : Swept)
    → IsConsistent db
    → sweep_expired stamp db ≡ ok (s, db')
    → Due stamp k db'
    → is_offered k (key_of (last_attempt k db')) db'.commands ≡ true
unfolding sweep_expired ensure_rekey_commands last_attempt
sweep_expired-offers stamp k db db' s h e =
    Ensures-at
      {Q = λ _ d. Due stamp k d → is_offered k (key_of (last_attempt k d)) d.commands ≡ true}
      (sweep_expired stamp db) e (Ensures-ok _ _ left)
  where
    fenced : Db
    fenced =
        (expire_maintenance_jobs stamp
          (expire_leases stamp (
            expire_reservations stamp
              (record db { commands = expire_commands stamp db.commands }))).0).0

    consistent : IsConsistent fenced
    consistent = expire_maintenance_jobs-IsConsistent stamp _ (
        expire_leases-IsConsistent stamp _ (
          expire_reservations-IsConsistent stamp
            (record db { commands = expire_commands stamp db.commands })
            (IsConsistent-same h refl refl refl refl refl)))

    Offered : Db → Type 0
    Offered d = Due stamp k d → is_offered k (key_of (last_attempt k d)) d.commands ≡ true

    ks : List ℕ
    ks = select_where (needs_rekey_command none stamp fenced) fenced.tasks

    left : Offered (enqueue_each stamp ks fenced).0
    left = subst Offered (sym (enqueue_each-eq stamp ks fenced)) λ due.
        ensure_rekey_commands-offers stamp k fenced consistent.tasks_table
          (Due-same stamp k fenced _ due)
