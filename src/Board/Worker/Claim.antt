-- ===== src/Board/Worker/Claim.antt =====
-- src/store.rs: `claim`, whole: what refuses it, and the lease that it grants.
use sandboard.Prelude.{
  ◌+◌, ◌*◌, ◌≡◌, Option-cases, Bool-cases, inl, inr, ◌∙◌, ap, refl, String, Option, none, some,
  true, false, is_empty, ==_self,
}
use sandboard.Prelude.Int.{ℤ}
use sandboard.Prelude.Result.{ok, err, Result-cases}
use sandboard.Map
use sandboard.Map.{nat_key, get-insert}
use sandboard.Model.State.{State}
use sandboard.Model.Item.{ItemId, WorkItem}
use sandboard.Machine.{TransitionError, check}
use sandboard.Machine.Rules.{check-claimed}
use sandboard.Board.State.{BoardState}
use sandboard.Board.State.Indexes.{put_item}
use sandboard.Board.Tree.{has_children, unresolved_blockers}
use sandboard.Board.Feed.{emit, number_and_send, record_and_send}
use sandboard.Board.Transition.{
  enter, commit, transition_locked, transition_card, change_card, store_back,
}
use sandboard.Board.Worker.{
  claim, grant, is_parked, lease_for, deadline_after, at_least_one, nanos_per_second,
}
use sandboard.Board.Transition.Outcome.{moved_to, get-moved_to, transition_card_passed}
use sandboard.Board.Core.{Board, ◌>>=◌}

module _ (b : Board) (id : ItemId) (agent_id : String) (model : Option String)
    (timeout_secs : ℤ) where
  -- A claim of a parked card is refused, and the board stays as it was.
  claim_parked :
      (it : WorkItem)
      → Map.get b.state.items id ≡ some it
      → it.parked ≡ true
      → claim id agent_id model timeout_secs b ≡ (err (TransitionError.parked id), b)
  unfolding claim is_parked ◌>>=◌
  claim_parked it found stopped = rw (claim, found, stopped) refl

  -- A claim that the guards refuse returns their error, and the board stays as it was.
  claim_refused :
      (it : WorkItem) (e : TransitionError)
      → Map.get b.state.items id ≡ some it
      → it.parked ≡ false
      → check it State.claimed (has_children b.state id) (unresolved_blockers b.state it) ≡ err e
      → claim id agent_id model timeout_secs b ≡ (err e, b)
  unfolding claim is_parked ◌>>=◌ transition_card transition_locked commit
  claim_refused it e found free refused =
      rw (claim, found, free, transition_card, transition_locked, found, refused) refl

  -- The board once the card is in Claimed.
  abbrev entered : WorkItem → BoardState
  entered it = moved_to b.clock id State.claimed agent_id none it b.state

  granted : WorkItem → WorkItem
  granted it =
      grant agent_id model timeout_secs (record b { state = entered it })
        (enter b.clock State.claimed agent_id none it)

  change_card-granted :
      (it : WorkItem)
      → change_card
          (TransitionError.no_such_item id)
          id
          (λ b it. ok (grant agent_id model timeout_secs b it))
          (record b { state = entered it })
        ≡ (ok (granted it), record b { state = put_item id (granted it) (entered it) })
  unfolding change_card store_back granted
  change_card-granted it =
      rw (change_card, get-moved_to b.clock id State.claimed agent_id none it b.state) refl

  claim_passed :
      (it : WorkItem)
      → Map.get b.state.items id ≡ some it
      → it.parked ≡ false
      → check it State.claimed (has_children b.state id) (unresolved_blockers b.state it) ≡ ok tt
      → claim id agent_id model timeout_secs b ≡ (
        ok (granted it),
        emit (granted it) (record b { state = put_item id (granted it) (entered it) }),
      )
  unfolding claim is_parked ◌>>=◌
  claim_passed it found free passed =
      let may : is_parked (Map.get b.state.items id) ≡ false = rw found free in
      rw
        (
          claim,
          may,
          transition_card_passed id State.claimed agent_id none b it found passed,
          change_card-granted it,
        )
        refl

  -- A card that waits in Backlog with no live children, no unresolved blockers and not parked is claimed:
  -- the claim returns the card as the board then holds it, in Claimed, no longer queued, leased to the
  -- agent until the deadline of the run, which lies the timeout, and at least one second, ahead.
  pub claim_lem :
      (it : WorkItem)
      → Map.get b.state.items id ≡ some it
      → it.parked ≡ false
      → it.state ≡ State.backlog
      → has_children b.state id ≡ false
      → is_empty (unresolved_blockers b.state it) ≡ true
      → (out : WorkItem) × ((claim id agent_id model timeout_secs b).0 ≡ ok out)
        × (Map.get (claim id agent_id model timeout_secs b).1.state.items id ≡ some out)
        × (out.state ≡ State.claimed)
        × (out.parked ≡ false)
        × (out.awaiting_dispatch ≡ false)
        × (out.run_deadline_at ≡ some (b.clock + at_least_one timeout_secs * nanos_per_second))
        × (out.lease
            ≡ some (record {
              agent_id = agent_id;
              granted_at = b.clock;
              last_heartbeat = b.clock;
              expires_at = b.clock + at_least_one timeout_secs * nanos_per_second;
            }))
  unfolding granted grant enter lease_for deadline_after emit number_and_send record_and_send
  claim_lem it found free waits leaf unblocked =
      let passed =
        (check-claimed it (has_children b.state id) (unresolved_blockers b.state it)).1
          (waits, leaf, unblocked) in
      let done = claim_passed it found free passed in
      (
        granted it,
        ap (λ r. r.0) done,
        ap (λ r. Map.get r.1.state.items id) done ∙ kept it,
        refl,
        refl,
        refl,
        refl,
        refl,
      )
    where
      kept :
          (it : WorkItem)
          → Map.get
              (emit
                (granted it)
                (record b { state = put_item id (granted it) (entered it) })).state.items
              id
            ≡ some (granted it)
      kept it = rw (emit, number_and_send, record_and_send, get-insert, ==_self id) refl

  claim_missing :
      Map.get b.state.items id ≡ none
      → claim id agent_id model timeout_secs b ≡ (err (TransitionError.no_such_item id), b)
  unfolding claim is_parked ◌>>=◌ transition_card transition_locked
  claim_missing missing = rw (claim, missing, transition_card, transition_locked, missing) refl

  -- A claim goes through only for a card that is on the board, not parked, in Backlog, without live
  -- children and without unresolved blockers.
  pub claim_requires :
      (out : WorkItem)
      → (claim id agent_id model timeout_secs b).0 ≡ ok out
      → (it : WorkItem) × (Map.get b.state.items id ≡ some it)
        × (it.parked ≡ false)
        × (it.state ≡ State.backlog)
        × (has_children b.state id ≡ false)
        × (is_empty (unresolved_blockers b.state it) ≡ true)
  claim_requires out done = elim (Option-cases (Map.get b.state.items id)) [
    | inl missing ↦ absurd (impossible _ (ap (λ r. r.0) (claim_missing missing)))
    | inr (it, found) ↦ elim (Bool-cases it.parked) [
      | inl stopped ↦ absurd (impossible _ (ap (λ r. r.0) (claim_parked it found stopped)))
      | inr free ↦
          elim (Result-cases
            (check it State.claimed (has_children b.state id) (unresolved_blockers b.state it))) [
              | inl (e, refused) ↦
                  absurd (impossible _ (ap (λ r. r.0) (claim_refused it e found free refused)))
              | inr (_, passed) ↦
                  let (waits, leaf, unblocked) =
                    (check-claimed it (has_children b.state id) (unresolved_blockers b.state it)).0
                      passed in
                  (it, found, free, waits, leaf, unblocked)
            ]
    ]
  ]
    where
      impossible : (e : TransitionError) → (claim id agent_id model timeout_secs b).0 ≡ err e → ⊥
      impossible e failed = cc
