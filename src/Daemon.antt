-- ===== src/Daemon.antt =====
-- The orchestrator daemon, .agent/scripts/orchestration/daemon/: its database and its server.
pub mod Db
pub mod Gate
pub mod State
pub mod Server
