-- ===== src/Board/Kept.antt =====
-- What every call of the board keeps: the soundness of the cards, the numbering of the events, and the
-- cards with their histories.
pub mod Cards
pub mod Log
pub mod Past
pub mod Calls
pub mod Reached
pub mod Refines
