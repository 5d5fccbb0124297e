-- ===== src/Board/Kept/Reached.antt =====
-- src/store.rs: what every board has that the program comes to, whatever calls it makes.
use sandboard.Prelude.{ℕ, ◌≡◌, ◌-◌, ◌||◌, ltb, max, drop, if◌then◌else◌}
use sandboard.Map.{nat_key}
use sandboard.Schema.{Schema}
use sandboard.Board.Call.{Call}
use sandboard.Board.Core.{Board}
use sandboard.Board.Feed.{CatchUpResult, catch_up}
use sandboard.Board.Feed.CatchUp.{catch_up_lem}
use sandboard.Board.Sound.{IsSound}
use sandboard.Board.Scope.Delete.{delete_item-IsSound}
use sandboard.Board.Kept.Cards.{IsSound-Closed, new_board-IsSound}
use sandboard.Board.Kept.Log.{IsLogged-Closed, new_board-IsLogged, delete_item-IsLogged}
use sandboard.Board.Kept.Past.{Remembers, IsAfter-Closed, Continues-refl}
use sandboard.Board.Kept.Calls.{Reach, run}
use sandboard.Board.Kept.Calls.Holds.{run-holds, Reach-holds}

-- Every board that is reached from a new one by calls, deletions among them, is sound: its two indexes hold what a scan of the
-- cards would find, ids are not reused, a parent is a card on the board that has no parent itself, a
-- card carries no lease and no run deadline in a state where no agent holds it, a finished card is
-- neither parked nor queued, and the history of each card is a path of legal edges from Draft to its state.
pub Reach-IsSound :
    (schema : Schema) (start : ℕ) (b : Board) → Reach schema start b → IsSound b.state
Reach-IsSound schema start b reach =
    Reach-holds IsSound-Closed delete_item-IsSound (new_board-IsSound schema start) reach

-- On every board that is reached by calls and deletions, a client that saw the events up to `last_seq` gets exactly
-- the events sent after them, in order, unless it is ahead of the board or further behind than the
-- buffer holds: then it is told to start anew.
pub Reach-catch_up :
    (schema : Schema) (start : ℕ) (b : Board) (last_seq : ℕ)
    → Reach schema start b
    → catch_up b last_seq ≡ (
        if ltb b.seq last_seq || ltb (max 1 b.buffer_capacity) (b.seq - last_seq)
        then CatchUpResult.reset b.seq
        else CatchUpResult.events (drop last_seq b.sent))
Reach-catch_up schema start b last_seq reach =
    catch_up_lem b last_seq
      (Reach-holds IsLogged-Closed delete_item-IsLogged (new_board-IsLogged schema start) reach)

-- A call other than a deletion, on a board that is reached by calls, takes no card off the board, moves none to another parent,
-- and adds to the histories at their ends only.
pub run-Remembers :
    (schema : Schema) (start : ℕ) (b : Board) (call : Call)
    → Reach schema start b
    → Remembers b.state.items (run call b).state.items
run-Remembers schema start b call reach =
    (run-holds (IsAfter-Closed b.state.items) call b (record {
      sound = Reach-IsSound schema start b reach;
      remembers = λ id it e. (it, e, Continues-refl it);
    })).remembers
