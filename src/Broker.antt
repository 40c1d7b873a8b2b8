-- ===== src/Broker.antt =====
-- The broker: the durable journal of its device (src/vgen/broker/journal.py) and the loop that
-- executes the gateway's commands (src/vgen/broker/daemon.py).
pub mod Journal
pub mod Daemon
pub mod Cursor
