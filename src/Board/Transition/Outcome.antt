-- ===== src/Board/Transition/Outcome.antt =====
-- A transition under the lock by its outcome: refused by the guards, or made.
use sandboard.Prelude.{ℕ, ◌≡◌, refl, String, Option, none, some, ==_self}
use sandboard.Prelude.Result.{Result, ok, err}
use sandboard.Map
use sandboard.Map.{nat_key, get-insert}
use sandboard.Model.State.{State}
use sandboard.Model.Item.{ItemId, WorkItem}
use sandboard.Machine.{TransitionError, check}
use sandboard.Board.State.{BoardState, index_set_state}
use sandboard.Board.State.Indexes.{put_item}
use sandboard.Board.Tree.{has_children, unresolved_blockers, populate_blockers}
use sandboard.Board.Transition.{
  enter, commit, transition_locked, transition_card, change_card, store_back,
}
use sandboard.Board.Transition.Stands.{items-index_set_state}
use sandboard.Board.Core.{Board}

-- The cards and indexes once the card has entered the state.
abbrev pub moved_to :
    ℕ → ItemId → State → String → Option String → WorkItem → BoardState → BoardState
moved_to now id to by reason it s =
    let moved = enter now to by reason it in
    index_set_state id it.state moved.state (put_item id moved s)

pub get-moved_to :
    (now : ℕ) (id : ItemId) (to : State) (by : String) (reason : Option String) (it : WorkItem)
    (s : BoardState)
    → Map.get (moved_to now id to by reason it s).items id ≡ some (enter now to by reason it)
get-moved_to now id to by reason it s =
    let moved = enter now to by reason it in
    rw (items-index_set_state id it.state moved.state (put_item id moved s))
      (rw (get-insert, ==_self id) refl)

module _ (id : ItemId) (to : State) (by : String) (reason : Option String) (b : Board)
    (it : WorkItem) (found : Map.get b.state.items id ≡ some it) where
  pub transition_card_passed :
      check it to (has_children b.state id) (unresolved_blockers b.state it) ≡ ok tt
      → transition_card id to by reason b ≡ (
        ok (
            populate_blockers
              (moved_to b.clock id to by reason it b.state)
              (enter b.clock to by reason it)),
        record b { state = moved_to b.clock id to by reason it b.state },
      )
  unfolding transition_card transition_locked commit
  transition_card_passed passed = rw (transition_card, transition_locked, found, passed) refl

  pub transition_card_refused :
      (e : TransitionError)
      → check it to (has_children b.state id) (unresolved_blockers b.state it) ≡ err e
      → transition_card id to by reason b ≡ (err e, b)
  unfolding transition_card transition_locked commit
  transition_card_refused e refused = rw (transition_card, transition_locked, found, refused) refl

pub transition_card_missing :
    (id : ItemId) (to : State) (by : String) (reason : Option String) (b : Board)
    → Map.get b.state.items id ≡ none
    → transition_card id to by reason b ≡ (err (TransitionError.no_such_item id), b)
unfolding transition_card transition_locked
transition_card_missing id to by reason b missing =
    rw (transition_card, transition_locked, missing) refl

-- A write under the lock that is not refused.
pub get-put_item :
    (id : ItemId) (it : WorkItem) (s : BoardState) → Map.get (put_item id it s).items id ≡ some it
get-put_item id it s = rw (get-insert, ==_self id) refl

pub change_card_passed :
    {E : Type 0} (missing : E) (id : ItemId) (f : Board → WorkItem → Result E WorkItem) (b : Board)
    (it changed : WorkItem)
    → Map.get b.state.items id ≡ some it
    → f b it ≡ ok changed
    → change_card missing id f b ≡ (ok changed, record b { state = put_item id changed b.state })
unfolding change_card store_back
change_card_passed missing id f b it changed found passed = rw (change_card, found, passed) refl
