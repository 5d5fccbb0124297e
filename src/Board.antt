-- ===== src/Board.antt =====
-- src/store.rs: the board.
pub mod State
pub mod Event
pub mod Core
pub mod Tree
pub mod Feed
pub mod Transition
pub mod Sound
pub mod Create
pub mod Fields
pub mod Proposal
pub mod Moves
pub mod Worker
pub mod Dispatch
pub mod Human
pub mod Scope
pub mod Cockpit
pub mod Invariant
pub mod Project
pub mod Repo
pub mod Plan
pub mod Review
pub mod Merge
pub mod Rebase
pub mod Advance
pub mod Split
pub mod Call
pub mod Kept
pub mod Examples
