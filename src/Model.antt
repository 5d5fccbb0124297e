-- ===== src/Model.antt =====
-- src/model.rs: the records and enums of the board. The children hold one part each.
pub mod State
pub mod Plan
pub mod PullRequest
pub mod Item
pub mod Cockpit
