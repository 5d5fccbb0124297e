-- ===== src/Board/Worker/Failure.antt =====
-- src/store.rs: where a card goes after a failed run, and after an escalation.
use sandboard.Prelude.{
  ℕ, ◌+◌, ◌≡◌, refl, String, Option, some, List, Bool, true, false, ltb, if◌then◌else◌,
}
use sandboard.Prelude.Result.{ok}
use sandboard.Map
use sandboard.Map.{nat_key}
use sandboard.Model.State.{State}
use sandboard.Model.Item.{ItemId, WorkItem, EscalationOption}
use sandboard.Board.State.Indexes.{put_item}
use sandboard.Board.Transition.{change_card, store_back}
use sandboard.Board.Transition.Stands.{Stands, transition_card-Gives}
use sandboard.Board.Moves.{transition, transition_str, finish}
use sandboard.Board.Worker.{escalate, record_run_failure}
use sandboard.Board.Core.{Board, Action}
use sandboard.Board.Core.Given.{Gives, Gives-bind, Gives-bind_last, Gives-map_error, Gives-after}
use sandboard.Board.Invariant.Moving.{stands_rules, requeue_str-Gives}

ask_human-Gives :
    (id : ItemId) (by : String) (reason : Option String)
    → Gives (Stands id State.needs_human) (transition_str id State.needs_human by reason)
unfolding transition_str transition finish
ask_human-Gives id by reason = Gives-map_error _ _ (
    Gives-bind_last _ _ λ env.
      Gives-bind _ _ (transition_card-Gives id State.needs_human by reason)
        λ item. search stands_rules depth 12)

-- Where an escalation succeeds, the card is in NeedsHuman.
escalate-Gives :
    (id : ItemId) (agent_id question : String) (options : List EscalationOption) (recommended : ℕ)
    → Gives (Stands id State.needs_human) (escalate id agent_id question options recommended)
unfolding escalate
escalate-Gives id agent_id question options recommended = Gives-bind_last _ _ λ _.
    Gives-bind_last _ _ λ _.
      Gives-bind _ _ (ask_human-Gives id agent_id (some question))
        λ item. search stands_rules depth 8

if-Gives :
    {E A : Type 0} {id : ItemId} (t : Bool) (m n : Action E A)
    → Gives (Stands id State.backlog) m
    → Gives (Stands id State.needs_human) n
    → Gives (Stands id (if t then State.backlog else State.needs_human)) (if t then m else n)
if-Gives true m n gm gn = gm
if-Gives false m n gm gn = gn

counted_failure :
    (id : ItemId) (b : Board) (it : WorkItem)
    → Map.get b.state.items id ≡ some it
    → change_card {E = String} "no such item" id
        (λ _ it. ok (record it { run_failures = it.run_failures + 1 }))
        b
      ≡ (
        ok (record it { run_failures = it.run_failures + 1 }),
        record b { state = put_item id (record it { run_failures = it.run_failures + 1 }) b.state },
      )
unfolding change_card store_back
counted_failure id b it found = rw (change_card, found) refl

-- Where the record of a failed run succeeds, the card is back in Backlog while its failures, this one
-- counted, are below the budget, and in NeedsHuman once they reach it.
pub record_run_failure_lem :
    (id : ItemId) (reason : String) (max_attempts : ℕ) (b : Board) (it now out : WorkItem)
    → Map.get b.state.items id ≡ some it
    → (record_run_failure id reason max_attempts b).0 ≡ ok out
    → Map.get (record_run_failure id reason max_attempts b).1.state.items id ≡ some now
    → now.state
      ≡ (if ltb (it.run_failures + 1) max_attempts then State.backlog else State.needs_human)
unfolding record_run_failure
record_run_failure_lem id reason max_attempts b it now out found done after =
    (Gives-after
        {Q = Stands id
          (if ltb (it.run_failures + 1) max_attempts then State.backlog else State.needs_human)}
        _ _ b
        (record b {
          state = put_item id (record it { run_failures = it.run_failures + 1 }) b.state;
        })
        (record it { run_failures = it.run_failures + 1 }) out (counted_failure id b it found)
        (Gives-bind_last _ _ λ _.
          if-Gives _ _ _
            (Gives-bind _ _ (requeue_str-Gives id "supervisor" _)
              λ item. search stands_rules depth 8)
            (escalate-Gives id "supervisor" _ _ 0))
        done).here
      now after
