-- ===== src/Board/Moves/Retire.antt =====
-- src/store.rs: what retiring a card does to the card and to its sandbox.
use sandboard.Prelude.{◌≡◌, ap, refl, String, Option, none, some, [], ◌∷◌, ◌++◌, false, inl, inr}
use sandboard.Prelude.Result.{ok, err, Result-cases}
use sandboard.Map
use sandboard.Map.{nat_key}
use sandboard.Model.State.{State, is_terminal}
use sandboard.Model.Item.{ItemId, WorkItem}
use sandboard.Machine.{TransitionError, check}
use sandboard.Board.Tree.{has_children, unresolved_blockers, populate_blockers}
use sandboard.Board.Feed.{emit, number_and_send, record_and_send}
use sandboard.Board.Transition.{enter, frees_card, reread, get_card, with_blockers}
use sandboard.Board.Transition.Outcome.{
  moved_to, get-moved_to, transition_card_passed, transition_card_refused,
}
use sandboard.Board.Moves.{transition, finish, environment_of, spawn_delete}
use sandboard.Board.Core.{Board, ◌>>=◌}

module _ (id : ItemId) (by : String) (reason : Option String) (b : Board) (it : WorkItem)
    (env : String) (found : Map.get b.state.items id ≡ some it)
    (has : it.environment ≡ some env) where
  environment_found : environment_of (Map.get b.state.items id) ≡ some env
  unfolding environment_of
  environment_found = rw found has

  retire_refused :
      (e : TransitionError)
      → check it State.retired (has_children b.state id) (unresolved_blockers b.state it) ≡ err e
      → transition id State.retired by reason b ≡ (err e, b)
  unfolding transition ◌>>=◌
  retire_refused e refused =
      rw (transition, transition_card_refused id State.retired by reason b it found e refused) refl

  abbrev retired_card : WorkItem
  retired_card = enter b.clock State.retired by reason it

  retire_passed :
      check it State.retired (has_children b.state id) (unresolved_blockers b.state it) ≡ ok tt
      → ((transition id State.retired by reason b).0
          ≡ ok (
              populate_blockers
                (moved_to b.clock id State.retired by reason it b.state)
                retired_card))
        × ((transition id State.retired by reason b).1.deleted ≡ b.deleted ++ env ∷ [])
  unfolding transition ◌>>=◌ finish spawn_delete is_terminal emit number_and_send record_and_send
      reread get_card with_blockers
  retire_passed passed = (
    rw
        (
          transition,
          environment_found,
          transition_card_passed id State.retired by reason b it found passed,
          get-moved_to b.clock id State.retired by reason it b.state,
        )
        refl,
    rw
        (
          transition,
          environment_found,
          transition_card_passed id State.retired by reason b it found passed,
        )
        refl,
  )

  -- Where a card with a sandbox is retired, the deletion of that sandbox is spawned, once, and the card
  -- returned names no sandbox and no conversation, has no lease, and is neither parked nor queued.
  pub retire_lem :
      (out : WorkItem)
      → (transition id State.retired by reason b).0 ≡ ok out
      → ((transition id State.retired by reason b).1.deleted ≡ b.deleted ++ env ∷ [])
        × (out.state ≡ State.retired)
        × (out.environment ≡ none)
        × (out.conversation_id ≡ none)
        × (out.lease ≡ none)
        × (out.parked ≡ false)
        × (out.awaiting_dispatch ≡ false)
  unfolding enter is_terminal populate_blockers frees_card
  retire_lem out done =
      elim (Result-cases
        (check it State.retired (has_children b.state id) (unresolved_blockers b.state it))) [
          | inl (e, refused) ↦ absurd (impossible e (ap (λ r. r.0) (retire_refused e refused)))
          | inr (_, passed) ↦
              let (result, deletion) = retire_passed passed in
              let same : populate_blockers (moved_to b.clock id State.retired by reason it b.state)
                    retired_card
                  ≡ out =
                cc in
              rw (← same) (deletion, refl, refl, refl, refl, refl, refl)
        ]
    where
      impossible : (e : TransitionError) → (transition id State.retired by reason b).0 ≡ err e → ⊥
      impossible e failed = cc
