-- ===== src/Supervisor.antt =====
-- src/supervisor.rs: the decisions of the supervisor. It runs agents in sandboxes; what it reads back
-- from them, and what it does with a run, is decided by functions without input and output.
pub mod Runs
pub mod Output
pub mod Notes
pub mod Sidecar
mod Examples
