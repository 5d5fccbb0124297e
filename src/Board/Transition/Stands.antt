-- ===== src/Board/Transition/Stands.antt =====
-- A transition that succeeds leaves the card in the state that was asked for.
use sandboard.Prelude.{ℕ, ◌≡◌, String, Option, some, arith, Option-cases, inl, inr, ==_self}
use sandboard.Prelude.Result.{Result, ok, err}
use sandboard.Map
use sandboard.Map.{nat_key, get-insert}
use sandboard.Model.State.{State}
use sandboard.Model.Item.{ItemId, WorkItem}
use sandboard.Machine.{TransitionError, check}
use sandboard.Board.State.{BoardState, index_set_state}
use sandboard.Board.State.Indexes.{put_item}
use sandboard.Board.Tree.{has_children, unresolved_blockers}
use sandboard.Board.Transition.{enter, commit, transition_locked, transition_card}
use sandboard.Board.Core.{Board}
use sandboard.Board.Core.Given.{Gives}

-- The card, if it is on the board, is in the state `st`.
pub record Stands (id : ItemId) (st : State) (b : Board) : Type 0 where
  pub here : (it : WorkItem) → Map.get b.state.items id ≡ some it → it.state ≡ st

pub items-index_set_state :
    (id : ItemId) (source to : State) (s : BoardState)
    → (index_set_state id source to s).items ≡ s.items
unfolding index_set_state
items-index_set_state id source to s = ground arith

-- The items after a commit that went through.
pub get-commit :
    (r : Result TransitionError Unit) (id : ItemId) (item moved : WorkItem) (s : BoardState)
    (out : WorkItem)
    → (commit r id item moved s).0 ≡ ok out
    → Map.get (commit r id item moved s).1.items id ≡ some moved
unfolding commit
get-commit (err e) id item moved s out h = cc
get-commit (ok u) id item moved s out h =
    rw (items-index_set_state id item.state moved.state (put_item id moved s))
      (rw (get-insert, ==_self id))

transition_locked_stands :
    (now : ℕ) (id : ItemId) (to : State) (by : String) (reason : Option String) (s : BoardState)
    (out it : WorkItem)
    → (transition_locked now id to by reason s).0 ≡ ok out
    → Map.get (transition_locked now id to by reason s).1.items id ≡ some it
    → it.state ≡ to
unfolding transition_locked enter
transition_locked_stands now id to by reason s out it done found =
    elim (Option-cases (Map.get s.items id)) [
      | inl e ↦ ground (arith, e)
      | inr (item, e) ↦ ground (
        arith,
        e,
        get-commit (check item to (has_children s id) (unresolved_blockers s item)) id item
            (enter now to by reason item) s out,
      )
    ]

pub transition_card-Gives :
    (id : ItemId) (to : State) (by : String) (reason : Option String)
    → Gives (Stands id to) (transition_card id to by reason)
unfolding transition_card
transition_card-Gives id to by reason = record {
  after = λ b out done. record {
    here = λ it found. transition_locked_stands b.clock id to by reason b.state out it done found;
  };
}
