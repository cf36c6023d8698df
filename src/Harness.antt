-- ===== src/Harness.antt =====
-- The harness runner, .agent/scripts/harness/harness_run.py.
pub mod Manifest
pub mod Env
pub mod Limits
pub mod Launch
pub mod Run
pub mod Enforcement
pub mod Accounting
mod Samples
