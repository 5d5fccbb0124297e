-- ===== src/Board/Invariant.antt =====
-- Invariants of the board: what a predicate has to survive so that every method keeps it, and the
-- methods that then do.
pub mod Closed
pub mod Creation
pub mod Benign
pub mod Moving
pub mod Agent
pub mod Queue
pub mod Humans
pub mod Walks
pub mod Session
pub mod Projects
pub mod Plans
pub mod Reviews
