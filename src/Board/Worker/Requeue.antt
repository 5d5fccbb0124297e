-- ===== src/Board/Worker/Requeue.antt =====
-- src/store.rs: what the sweep's moves to Backlog do to the cards.
use sandboard.Prelude.{
  ℕ, ◌≡◌, ◌∙◌, refl, ap, String, Option, some, List, [], ◌∷◌, Bool, true, false, arith, ◌==◌,
  ==_iff, Bool-cases, Option-cases, inl, inr,
}
use sandboard.Prelude.Result.{ok, err, Result-cases}
use sandboard.Map
use sandboard.Map.{nat_key, get-insert}
use sandboard.Map.Set.{contains}
use sandboard.Model.State.{State, is_terminal}
use sandboard.Model.Item.{ItemId, WorkItem}
use sandboard.Machine.{TransitionError, check, allowed}
use sandboard.Board.State.{index_set_state}
use sandboard.Board.State.Indexes.{put_item}
use sandboard.Board.Tree.{has_children, unresolved_blockers}
use sandboard.Board.Transition.{enter, reread}
use sandboard.Board.Transition.Stands.{items-index_set_state}
use sandboard.Board.Transition.Outcome.{
  get-moved_to, transition_card_passed, transition_card_refused, transition_card_missing,
}
use sandboard.Board.Feed.{emit, story, number_and_send, record_and_send}
use sandboard.Board.Moves.{transition, finish}
use sandboard.Board.Worker.{requeue_all}
use sandboard.Board.Core.{Board, ◌>>=◌, attempt}

-- The board shows this card, at this time.
pub record Shows (c : ItemId) (card : WorkItem) (now : ℕ) (b : Board) : Type 0 where
  pub there : Map.get b.state.items c ≡ some card
  pub at : b.clock ≡ now

module _ (by : String) (reason : Option String) where
  requeued :
      (b : Board) (c : ItemId) (card : WorkItem) (now : ℕ)
      → check card State.backlog (has_children b.state c) (unresolved_blockers b.state card) ≡ ok tt
      → Shows c card now b
      → Shows c
          (enter now State.backlog by reason card)
          now
          (transition c State.backlog by reason b).1
  unfolding transition ◌>>=◌ finish emit number_and_send record_and_send Map.get reread
      index_set_state is_terminal
  requeued b c card now passed h =
      let move = transition_card_passed c State.backlog by reason b card h.there passed in
      rw (transition, move)
        (record {
          there =
              get-moved_to b.clock c State.backlog by reason card b.state
              ∙ ap (λ n. some (enter n State.backlog by reason card)) h.at;
          at = h.at;
        })

  refused_stays :
      (b : Board) (c : ItemId) (card : WorkItem) (now : ℕ)
      → card.state ≡ State.backlog
      → Shows c card now b
      → Shows c card now (transition c State.backlog by reason b).1
  unfolding transition ◌>>=◌ check allowed
  refused_stays b c card now waits h =
      let refused =
        transition_card_refused c State.backlog by reason b card h.there _
          (not_again card (has_children b.state c) (unresolved_blockers b.state card) waits) in
      rw (transition, refused) h
    where
      not_again :
          (card : WorkItem) (kids : Bool) (blockers : List ItemId)
          → card.state ≡ State.backlog
          → check card State.backlog kids blockers
            ≡ err (TransitionError.illegal card.id card.state State.backlog)
      not_again card kids blockers waits = rw waits refl

  other_stays :
      (b : Board) (id c : ItemId) (card : WorkItem) (now : ℕ)
      → (id == c) ≡ false
      → Shows c card now b
      → Shows c card now (transition id State.backlog by reason b).1
  unfolding transition ◌>>=◌ finish emit number_and_send record_and_send Map.get reread
      index_set_state is_terminal
  other_stays b id c card now other h = elim (Option-cases (Map.get b.state.items id)) [
    | inl gone ↦
        let missing = transition_card_missing id State.backlog by reason b gone in
        rw (transition, missing) h
    | inr (it, found) ↦
        elim (Result-cases
          (check it State.backlog (has_children b.state id) (unresolved_blockers b.state it))) [
            | inl (e, refusal) ↦
                let refused =
                  transition_card_refused id State.backlog by reason b it found e refusal in
                rw (transition, refused) h
            | inr (_, admitted) ↦
                let move = transition_card_passed id State.backlog by reason b it found admitted in
                let moved = enter b.clock State.backlog by reason it in
                rw (transition, move)
                  (record {
                    there =
                        ap (λ m. Map.get m c)
                          (items-index_set_state id it.state moved.state
                            (put_item id moved b.state))
                        ∙ get-insert b.state.items id c moved
                        ∙ rw other h.there;
                    at = h.at;
                  })
          ]
  ]

Shows-story :
    (c : ItemId) (card : WorkItem) (now : ℕ) (b : Board) (near : ItemId) (text : String)
    → Shows c card now b
    → Shows c card now (story near text b)
unfolding story number_and_send record_and_send
Shows-story c card now b near text h = record { there = h.there; at = h.at }

-- A card that is not listed is as it was.
pub requeue_all-other :
    (ids : List ItemId) (b : Board) (c : ItemId) (card : WorkItem) (now : ℕ)
    → contains ids c ≡ false
    → Shows c card now b
    → Shows c card now (requeue_all ids b).1
unfolding requeue_all ◌>>=◌ attempt contains
requeue_all-other [] b c card now out h = h
requeue_all-other (id ∷ rest) b c card now out h =
    requeue_all-other rest _ c card now (ground (arith, out)) (
      Shows-story c card now _ id _ (
        other_stays "deadline-sweeper" (some "run deadline exceeded") b id c card now
          (ground (arith, out)) h))

-- A card in Backlog is as it was.
requeue_all-waiting :
    (ids : List ItemId) (b : Board) (c : ItemId) (card : WorkItem) (now : ℕ)
    → card.state ≡ State.backlog
    → Shows c card now b
    → Shows c card now (requeue_all ids b).1
unfolding requeue_all ◌>>=◌ attempt
requeue_all-waiting [] b c card now waits h = h
requeue_all-waiting (id ∷ rest) b c card now waits h =
    requeue_all-waiting rest _ c card now waits (Shows-story c card now _ id _ (step id b h))
  where
    step :
        (id : ItemId) (b : Board)
        → Shows c card now b
        → Shows c card now
            (transition id State.backlog "deadline-sweeper" (some "run deadline exceeded") b).1
    step id b h = elim (Bool-cases (id == c)) [
      | inl same ↦
          let at : id ≡ c = (==_iff id c).0 same in rw at (refused_stays _ _ b c card now waits h)
      | inr other ↦ other_stays _ _ b id c card now other h
    ]

-- A card that is listed, and that Backlog admits, moves there once.
pub requeue_all-listed :
    (ids : List ItemId) (b : Board) (c : ItemId) (card : WorkItem) (now : ℕ)
    → ((kids : Bool) (blockers : List ItemId) → check card State.backlog kids blockers ≡ ok tt)
    → contains ids c ≡ true
    → Shows c card now b
    → Shows c
        (enter now State.backlog "deadline-sweeper" (some "run deadline exceeded") card)
        now
        (requeue_all ids b).1
unfolding requeue_all ◌>>=◌ attempt contains enter story
requeue_all-listed [] b c card now admits listed h = absurd cc
requeue_all-listed (id ∷ rest) b c card now admits listed h = elim (Bool-cases (id == c)) [
  | inl same ↦
      let at : id ≡ c = (==_iff id c).0 same in
      rw at (
        requeue_all-waiting rest _ c _ now refl
          (Shows-story c _ now _ c _ (requeued _ _ b c card now (admits _ _) h)))
  | inr other ↦
      requeue_all-listed rest _ c card now admits (ground (arith, listed, other))
        (Shows-story c card now _ id _ (other_stays _ _ b id c card now other h))
]
