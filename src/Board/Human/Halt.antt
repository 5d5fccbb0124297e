-- ===== src/Board/Human/Halt.antt =====
-- src/store.rs: a halt that the lifecycle refuses.
use sandboard.Prelude.{◌≡◌, refl, String, Option, none, some, List, Bool, false, ==_self}
use sandboard.Prelude.Result.{ok, err}
use sandboard.Map
use sandboard.Map.{nat_key, get-insert}
use sandboard.Model.State.{State}
use sandboard.Model.Item.{ItemId, WorkItem}
use sandboard.Machine.{TransitionError, allowed, check, error_text}
use sandboard.Board.State.Indexes.{put_item}
use sandboard.Board.Tree.{has_children, unresolved_blockers}
use sandboard.Board.Transition.{transition_card, transition_locked, commit, change_card, store_back}
use sandboard.Board.Moves.{transition, transition_str}
use sandboard.Board.Human.{halt, or_some}
use sandboard.Board.Core.{Board, ◌>>=◌, map_error, attempt}

check_illegal :
    (it : WorkItem) (to : State) (k : Bool) (bs : List ItemId)
    → allowed it.state to ≡ false
    → check it to k bs ≡ err (TransitionError.illegal it.id it.state to)
unfolding check
check_illegal it to k bs illegal = rw illegal refl

transition_str_illegal :
    (id : ItemId) (to : State) (by : String) (reason : Option String) (b : Board) (it : WorkItem)
    → Map.get b.state.items id ≡ some it
    → allowed it.state to ≡ false
    → transition_str id to by reason b
      ≡ (err (error_text (TransitionError.illegal it.id it.state to)), b)
unfolding transition_str transition transition_card transition_locked commit ◌>>=◌ map_error Map.get
    error_text
transition_str_illegal id to by reason b it found illegal =
    rw
      (
        transition_str,
        found,
        check_illegal it to (has_children b.state id) (unresolved_blockers b.state it) illegal,
      )
      refl

abbrev forget : WorkItem → WorkItem
forget it = record it { conversation_id = none; parked = false; environment = none }

forget_written :
    (id : ItemId) (b : Board) (it : WorkItem)
    → Map.get b.state.items id ≡ some it
    → change_card tt id (λ _ it. ok (forget it)) b
      ≡ (ok (forget it), record b { state = put_item id (forget it) b.state })
unfolding change_card store_back
forget_written id b it found = rw (change_card, found) refl

-- A halt of a card whose state has no edge to Backlog fails, and still the card has lost its sandbox,
-- its conversation and its parking, and the sandbox is not deleted.
pub halt_refused :
    (id : ItemId) (reason : Option String) (b : Board) (it : WorkItem)
    → Map.get b.state.items id ≡ some it
    → allowed it.state State.backlog ≡ false
    → halt id reason b ≡ (
      err (error_text (TransitionError.illegal it.id it.state State.backlog)),
      record b {
        state =
            put_item id
              (record it { conversation_id = none; parked = false; environment = none })
              b.state;
      },
    )
unfolding halt ◌>>=◌ attempt
halt_refused id reason b it found illegal =
    let b1 = record b { state = put_item id (forget it) b.state } in
    let there : Map.get b1.state.items id ≡ some (forget it) = rw (get-insert, ==_self id) refl in
    rw
      (
        halt,
        forget_written id b it found,
        transition_str_illegal id State.backlog "human" (or_some reason "halted") b1 (forget it)
            there illegal,
      )
      refl
