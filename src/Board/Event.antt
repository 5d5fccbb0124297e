-- ===== src/Board/Event.antt =====
-- src/events.rs: the deltas that the board pushes to its clients.
use sandboard.Prelude.{ℕ, String, Option}
use sandboard.Model.Item.{ItemId, WorkItem}

-- A story's time is kept as the number that `to_rfc3339` prints.
pub data BoardEvent : Type 0 where
  upsert : ℕ → WorkItem → BoardEvent
  story : ℕ → ItemId → ℕ → String → BoardEvent
  delete : ℕ → ItemId → BoardEvent
  main_advanced : ℕ → String → Option String → BoardEvent
  reset : ℕ → BoardEvent

unfoldable pub seq_of : BoardEvent → ℕ
seq_of (BoardEvent.upsert seq _) = seq
seq_of (BoardEvent.story seq _ _ _) = seq
seq_of (BoardEvent.delete seq _) = seq
seq_of (BoardEvent.main_advanced seq _ _) = seq
seq_of (BoardEvent.reset seq) = seq
