-- ===== src/Gateway/Brokers.antt =====
-- A broker's device reports itself (`broker_device_heartbeat` of src/vgen/gateway/repository.py). What
-- it says of its runtime is stored in columns that no statement reads, and left out.
use vgen.Base.{ℕ, Bool, Option, some, ◌==◌, ◌&&◌, ◌||◌, false}
use vgen.Table.{select_first, update_where}
use vgen.Gateway.Db.{Db, BrokerDevice}
use vgen.Gateway.Tx.{Body, ok, ◌>>=◌, ◌>>◌, require, found, broker_device_access_denied}
use vgen.Gateway.Commands.{ensure_rekey_commands}
use vgen.Gateway.Sweep.{expire_leases}

-- WHERE bd.id=? OR bd.device_id=?
unfoldable pub broker_device_of : ℕ → Db → Option (ℕ × BrokerDevice)
unfolding select_first
broker_device_of id db =
    select_first (λ _ _. false) (λ k d. k == id || d.device_id == id) db.broker_devices

abbrev pub is_linked_device : ℕ → ℕ → BrokerDevice → Bool
is_linked_device user_id broker_id d =
    d.owner_user_id == user_id && d.linked && d.broker_id == broker_id

-- The device is seen, whichever brokers it serves.
unfoldable pub touch_device : ℕ → ℕ → Db → Db
touch_device device_id stamp db = record db {
  broker_devices =
      update_where (λ _ d. d.device_id == device_id) (λ d. record d { last_seen_at = some stamp })
        db.broker_devices;
}

unfoldable pub broker_device_heartbeat : ℕ → ℕ → ℕ → ℕ → Body ℕ
unfolding broker_device_of touch_device expire_leases ensure_rekey_commands
broker_device_heartbeat broker_device_id user_id broker_id stamp db = do
  d ← found (broker_device_of broker_device_id db) broker_device_access_denied
  require (is_linked_device user_id broker_id d.1) broker_device_access_denied
  let swept = (expire_leases stamp (touch_device d.1.device_id stamp db)).0
  ok (stamp, (ensure_rekey_commands (some d.1.owner_user_id) stamp swept).0)
