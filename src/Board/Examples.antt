-- ===== src/Board/Examples.antt =====
-- Concrete boards, and the theorems applied to them.
pub mod Garden
pub mod Calls
pub mod Walks
pub mod Reviews
pub mod Busy
use sandboard.Prelude.{◌∷◌}
use sandboard.Board.Kept.Refines.{Advances, view, run_all, run_all-Advances}
use sandboard.Prelude.{
  ◌≢◌, ◌≡◌, ◌-◌, ◌||◌, refl, none, some, [], true, false, ltb, max, drop, is_some, if◌then◌else◌,
  ◌↔◌, is_empty, ◌&&◌, not, is_none,
}
use sandboard.Prelude.Int.{pos}
use sandboard.Prelude.Result.{ok, err}
use sandboard.Map.{nat_key}
use sandboard.Schema.{default_schema}
use sandboard.Model.State.{State, state_eq}
use sandboard.Model.Item.{ItemId, WorkItem, Origin, new_item}
use sandboard.Machine.{TransitionError, check, unarchive_target, requires_claimable}
use sandboard.Machine.Rules.{check-claimed}
use sandboard.Board.Core.{Board, new_board}
use sandboard.Board.Call.{Call}
use sandboard.Board.Feed.{CatchUpResult, catch_up}
use sandboard.Board.Sound.{IsSound}
use sandboard.Board.Kept.Calls.{Reach, run, started, called}
use sandboard.Board.Kept.Past.{Remembers}
use sandboard.Board.Kept.Reached.{Reach-IsSound, Reach-catch_up, run-Remembers}

abbrev make_project : Call
make_project = Call.create none "Garden" "grow it" none Origin.human true none

abbrev start_board : Board
start_board = new_board default_schema 7

-- A Project with the Initial plan Task that was seeded under it.
abbrev project_board : Board
project_board = run make_project start_board

abbrev claim_plan : Call
claim_plan = Call.claim 2 "agent-1" none (pos 60)

-- The Initial plan Task is claimed.
abbrev claimed_board : Board
claimed_board = run claim_plan project_board

project-Reach : Reach default_schema 7 project_board
project-Reach = called make_project started

claimed-Reach : Reach default_schema 7 claimed_board
claimed-Reach = called claim_plan project-Reach

Reach-IsSound_example : IsSound claimed_board.state
Reach-IsSound_example = Reach-IsSound default_schema 7 claimed_board claimed-Reach

Reach-catch_up_example : catch_up claimed_board 3 ≡ (
    if ltb claimed_board.seq 3 || ltb (max 1 claimed_board.buffer_capacity) (claimed_board.seq - 3)
    then CatchUpResult.reset claimed_board.seq
    else CatchUpResult.events (drop 3 claimed_board.sent))
Reach-catch_up_example = Reach-catch_up default_schema 7 claimed_board 3 claimed-Reach

run-Remembers_example : Remembers project_board.state.items claimed_board.state.items
run-Remembers_example = run-Remembers default_schema 7 project_board claim_plan project-Reach

abbrev waiting_card : WorkItem
waiting_card = record (new_item 7 5 "Dig" "dig a hole") {
  state = State.backlog;
  definition_of_done = some "a hole";
}

check-claimed_example :
    (check waiting_card State.claimed false [] ≡ ok tt)
    ↔ (waiting_card.state ≡ State.backlog) × (false ≡ false) × (is_empty {A = ItemId} [] ≡ true)
check-claimed_example = check-claimed waiting_card false []

abbrev retired_card : WorkItem
retired_card = record (new_item 7 6 "Rake" "rake") { state = State.retired }

run_all-Advances_example :
    Advances (view project_board) (view (run_all (claim_plan ∷ []) project_board))
run_all-Advances_example =
    run_all-Advances default_schema 7 project_board (claim_plan ∷ []) project-Reach
