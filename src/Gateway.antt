-- ===== src/Gateway.antt =====
-- The gateway: its scheduling database and the transactions on it (src/vgen/gateway/repository.py).
pub mod Installs
pub mod Db
pub mod Tx
pub mod Access
pub mod Commands
pub mod Sweep
pub mod Expiry
pub mod Jobs
pub mod Workers
pub mod Brokers
pub mod Tasks
pub mod Leasing
pub mod Rekey
pub mod Prepare
pub mod Preflight
pub mod Heartbeat
pub mod Outcome
pub mod Usage
pub mod Receipts
pub mod Outputs
pub mod Finish
pub mod Artifacts
pub mod Requests
pub mod Safety
