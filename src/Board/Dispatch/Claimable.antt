-- ===== src/Board/Dispatch/Claimable.antt =====
-- src/store.rs: `enqueue_dispatch` against `claim`.
use sandboard.Prelude.{
  ◌≡◌, refl, String, Option, some, true, false, arith, is_empty, Bool-cases, inl, inr,
}
use sandboard.Prelude.Int.{ℤ}
use sandboard.Prelude.Result.{ok, err, Result-cases}
use sandboard.Map
use sandboard.Map.{nat_key}
use sandboard.Model.State.{State, state_eq_iff}
use sandboard.Model.Item.{ItemId, WorkItem}
use sandboard.Board.State.{BoardState}
use sandboard.Board.Tree.{has_children, unresolved_blockers}
use sandboard.Board.Transition.{change_card, store_back}
use sandboard.Board.Worker.{claim, may_claim, is_parked}
use sandboard.Board.Worker.Claim.{claim_lem}
use sandboard.Board.Dispatch.{check_dispatch, queued_if, enqueue_dispatch}
use sandboard.Board.Core.{Board, ◌>>=◌}

dispatched :
    (s : BoardState) (id : ItemId) (it : WorkItem)
    → check_dispatch s id it ≡ ok tt
    → (it.parked ≡ false)
      × (it.state ≡ State.backlog)
      × (has_children s id ≡ false)
      × (is_empty (unresolved_blockers s it) ≡ true)
unfolding check_dispatch
dispatched s id it h = ground (arith, state_eq_iff it.state State.backlog)

enqueue_refused :
    (id : ItemId) (b : Board) (it out : WorkItem) (e : String)
    → Map.get b.state.items id ≡ some it
    → check_dispatch b.state id it ≡ err e
    → (enqueue_dispatch id b).0 ≡ ok out
    → ⊥
unfolding enqueue_dispatch may_claim is_parked change_card store_back queued_if ◌>>=◌
enqueue_refused id b it out e found refused done = elim (Bool-cases it.parked) [
  | inl stopped ↦
      let may : may_claim b id ≡ false = rw found (rw stopped refl) in ground (arith, done, may)
  | inr free ↦
      let may : may_claim b id ≡ true = rw found (rw free refl) in
      ground (arith, done, may, found, refused)
]

-- A card that `enqueue_dispatch` takes into the queue is one that any agent could claim on the same
-- board, whatever the timeout.
pub enqueue-claim :
    (id : ItemId) (b : Board) (it out : WorkItem) (agent_id : String) (model : Option String)
    (timeout_secs : ℤ)
    → Map.get b.state.items id ≡ some it
    → (enqueue_dispatch id b).0 ≡ ok out
    → (claimed : WorkItem) × ((claim id agent_id model timeout_secs b).0 ≡ ok claimed)
enqueue-claim id b it out agent_id model timeout_secs found done =
    elim (Result-cases (check_dispatch b.state id it)) [
      | inl (e, refused) ↦ absurd (enqueue_refused id b it out e found refused done)
      | inr (_, passed) ↦
          let (free, waits, leaf, unblocked) = dispatched b.state id it passed in
          let grant =
            claim_lem b id agent_id model timeout_secs it found free waits leaf unblocked in
          (grant.0, grant.1)
    ]
