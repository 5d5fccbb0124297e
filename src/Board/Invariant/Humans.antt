-- ===== src/Board/Invariant/Humans.antt =====
-- A closed predicate survives the verbs of a human on one card.
use sandboard.Prelude.{
  ◌≡◌, refl, String, Option, none, List, [], ◌∷◌, ◌++◌, Bool, true, false, arith,
}
use sandboard.Prelude.Result.{Result, ok}
use sandboard.Map.{nat_key}
use sandboard.Model.State.{State, is_terminal}
use sandboard.Model.Item.{ItemId, WorkItem, Note}
use sandboard.Board.Sound.{IsCard}
use sandboard.Board.Core.{Board}
use sandboard.Board.Core.Keeps.{Keeps, Keeps-pure, Keeps-bind}
use sandboard.Board.Core.Given.{
  From, From-bind, From-bind_later, From-Keeps, From-if, Keeps-bind_given,
}
use sandboard.Board.Transition.Stands.{Stands}
use sandboard.Board.Invariant.Benign.{IsBenign-Eased}
use sandboard.Board.Invariant.Moving.{move_rules, stands_rules, requeue_str-Gives}
use sandboard.Board.Invariant.Closed.{Closed, IsBenign, IsVersion, closed_rules, From-change_card}
use sandboard.Board.Human.{
  human_note, steer, answered, park_deferred, answer_escalation, park_note, not_blank, park,
  unparked, unpark, halt, request_changes,
}
use sandboard.Board.Invariant.Queue.{enqueue_dispatch-Keeps}

-- A card in Backlog may be parked.
parked-IsVersion :
    (old : WorkItem) (awaiting : Bool) (notes : List Note)
    → old.state ≡ State.backlog
    → IsCard old
    → IsVersion old (record old { parked = true; awaiting_dispatch = awaiting; notes = notes })
unfolding is_terminal
parked-IsVersion old awaiting notes waits h = record {
  same_id = refl;
  same_parent = refl;
  same_state = refl;
  same_history = refl;
  card = record { unleased = h.unleased; at_rest = λ e. ground arith; trail = h.trail };
}

parked_as :
    (old it : WorkItem) (awaiting : Bool) (notes : List Note)
    → old.state ≡ State.backlog
    → IsCard old
    → ◌≡◌ {A = Result String WorkItem}
        (ok (record old { parked = true; awaiting_dispatch = awaiting; notes = notes }))
        (ok it)
    → IsVersion old it
parked_as old it awaiting notes waits h e =
    let same : record old { parked = true; awaiting_dispatch = awaiting; notes = notes } ≡ it =
      cc in
    rw (← same) (parked-IsVersion old awaiting notes waits h)

module _ {P : Board → Type 0} (c : Closed P) where
  pub steer-Keeps : (id : ItemId) (text : String) → Keeps P (steer id text)
  unfolding steer
  steer-Keeps id text = search (closed_rules, steered) depth 10
    where
      steered : IsBenign {E = String} λ b it. ok (record it {
        notes = it.notes ++ human_note b.clock (text ∷ []) ∷ [];
        run_failures = 0;
        escalation = none;
      })
      steered = IsBenign-Eased _ (λ b old it e. ground arith)

  answered-IsBenign : (choice : String) → IsBenign (λ b it. answered b.clock choice it)
  unfolding answered
  answered-IsBenign choice = IsBenign-Eased _ (λ b old it e. ground arith)

  park_deferred-From :
      (id : ItemId) (title : String) → From (Stands id State.backlog) P (park_deferred id title)
  unfolding park_deferred
  park_deferred-From id title =
      From-bind _ _
        (From-change_card c _ id _
          (λ b stands old it found card e. parked_as old it _ _ (stands.here old found) card e))
        (λ _. search closed_rules depth 8)

  pub answer_escalation-Keeps :
      (id : ItemId) (choice : String) → Keeps P (answer_escalation id choice)
  unfolding answer_escalation
  answer_escalation-Keeps id choice =
      Keeps-bind _ _ (search (closed_rules, answered-IsBenign)) λ asked.
        Keeps-bind_given _ _ (search move_rules) (requeue_str-Gives id "human" _) λ item.
          From-bind_later _ _ (search closed_rules) (search stands_rules)
            λ _. From-if _ _ _ (park_deferred-From id asked.title) (From-Keeps _ (Keeps-pure item))

  pub park-Keeps : (id : ItemId) (reason : Option String) → Keeps P (park id reason)
  unfolding park
  park-Keeps id reason = Keeps-bind _ _ (search (closed_rules, noted)) λ noted.
      Keeps-bind_given _ _ (search move_rules) (requeue_str-Gives id "human" _) λ _.
        From-bind _ _
          (From-change_card c _ id _ (λ b stands old it found card e.
            parked_as old it old.awaiting_dispatch old.notes (stands.here old found) card e))
          (λ _. search closed_rules depth 8)
    where
      noted :
          IsBenign {E = String}
            (λ b it. ok (record it { notes = park_note b.clock (not_blank reason) it.notes }))
      noted = IsBenign-Eased _ (λ b old it e. ground arith)

  unparked-IsBenign : IsBenign (λ _ it. unparked it)
  unfolding unparked
  unparked-IsBenign = IsBenign-Eased _ (λ b old it e. ground arith)

  pub unpark-Keeps : (id : ItemId) → Keeps P (unpark id)
  unfolding unpark
  unpark-Keeps id = search (closed_rules, unparked-IsBenign, enqueue_dispatch-Keeps) depth 10

  forgotten-IsBenign :
      IsBenign {E = Unit}
        (λ _ it. ok (record it { conversation_id = none; parked = false; environment = none }))
  forgotten-IsBenign = IsBenign-Eased _ (λ b old it e. ground arith)

  pub halt-Keeps : (id : ItemId) (reason : Option String) → Keeps P (halt id reason)
  unfolding halt
  halt-Keeps id reason = search (move_rules, forgotten-IsBenign) depth 14

  withdrawn-IsBenign : IsBenign {E = Unit} (λ _ it. ok (record it { proposal = none }))
  withdrawn-IsBenign = IsBenign-Eased _ (λ b old it e. ground arith)

  pub request_changes-Keeps : (id : ItemId) (note : String) → Keeps P (request_changes id note)
  unfolding request_changes
  request_changes-Keeps id note = search (move_rules, steer-Keeps, withdrawn-IsBenign) depth 14
