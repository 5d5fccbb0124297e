-- ===== src/Board/Invariant/Moving.antt =====
-- A closed predicate survives `transition`, with the Tasks that a Done card makes, and what the
-- transition leaves.
use sandboard.Prelude.{String, Option, none, some, List, [], ◌∷◌, arith, if◌then◌else◌, is_some}
use sandboard.Prelude.Result.{ok, err}
use sandboard.Map.{nat_key}
use sandboard.Model.State.{State}
use sandboard.Model.Item.{ItemId, WorkItem}
use sandboard.Board.Feed.{emit, story, number_and_send, record_and_send}
use sandboard.Board.Transition.Stands.{Stands, transition_card-Gives}
use sandboard.Board.Proposal.{
  drop_plan, materialize_card, materialize_found, materialize_proposal_on_done,
}
use sandboard.Board.Moves.{
  announce, announce_unblocked, spawn_delete, finish, transition, transition_str,
}
use sandboard.Board.Core.{Board, modify}
use sandboard.Board.Core.Keeps.{Keeps, Keeps-pure, Keeps-bind, Keeps-modify, keeps_rules}
use sandboard.Board.Core.Given.{Gives, Gives-bind, Gives-bind_last, Gives-map_error}
use sandboard.Board.Invariant.Benign.{IsBenign-Eased}
use sandboard.Board.Invariant.Creation.{materialize_proposal-Keeps}
use sandboard.Board.Invariant.Closed.{Closed, IsBenign, closed_rules, Closed-story, Keeps-reread}

module _ {P : Board → Type 0} (c : Closed P) where
  dropped-IsBenign :
      IsBenign {E = Unit} (λ _ p. if is_some p.plan then ok (record p { plan = none }) else err tt)
  dropped-IsBenign = IsBenign-Eased _ (λ b old it e. ground arith)

  drop_plan-Keeps : (o : Option ItemId) → Keeps P (drop_plan o)
  unfolding drop_plan
  drop_plan-Keeps none = Keeps-pure tt
  drop_plan-Keeps (some project_id) = search (closed_rules, dropped-IsBenign) depth 10

  materialize_card-Keeps :
      (id : ItemId) (by : String) (card : WorkItem) → Keeps P (materialize_card id by card)
  unfolding materialize_card
  materialize_card-Keeps id by card =
      search (closed_rules, materialize_proposal-Keeps, drop_plan-Keeps) depth 16

  materialize_found-Keeps :
      (id : ItemId) (by : String) (o : Option WorkItem) → Keeps P (materialize_found id by o)
  unfolding materialize_found
  materialize_found-Keeps id by none = Keeps-pure 0
  materialize_found-Keeps id by (some card) = materialize_card-Keeps id by card

  pub materialize_proposal_on_done-Keeps :
      (id : ItemId) (by : String) → Keeps P (materialize_proposal_on_done id by)
  unfolding materialize_proposal_on_done
  materialize_proposal_on_done-Keeps id by = search (closed_rules, materialize_found-Keeps) depth 8

  Closed-announce : (id : ItemId) (us : List WorkItem) (b : Board) → P b → P (announce id us b)
  unfolding announce
  Closed-announce id [] b h = h
  Closed-announce id (u ∷ []) b h = Closed-story c id _ b h
  Closed-announce id (u ∷ v ∷ rest) b h = Closed-story c id _ b h

  Keeps-announce_unblocked :
      {E : Type 0} (id : ItemId) → Keeps {E = E} P (modify (announce_unblocked id))
  unfolding announce_unblocked
  Keeps-announce_unblocked id =
      Keeps-modify (announce_unblocked id) (λ b h. Closed-announce id _ b h)

  pub finish-Keeps : (id : ItemId) (to : State) (by : String) → Keeps P (finish id to by)
  unfolding finish
  finish-Keeps id State.done by =
      search (closed_rules, materialize_proposal_on_done-Keeps, Keeps-announce_unblocked) depth 10
  finish-Keeps id _ by = Keeps-pure tt

  pub transition-Keeps :
      (id : ItemId) (to : State) (by : String) (reason : Option String)
      → Keeps P (transition id to by reason)
  unfolding transition
  transition-Keeps id to by reason = search (closed_rules, finish-Keeps) depth 14

  pub transition_str-Keeps :
      (id : ItemId) (to : State) (by : String) (reason : Option String)
      → Keeps P (transition_str id to by reason)
  unfolding transition_str
  transition_str-Keeps id to by reason = search (closed_rules, transition-Keeps)

pub ruleset move_rules = (closed_rules, transition-Keeps, transition_str-Keeps)

-- What does not write cards leaves a card in its state.
module _ (id : ItemId) (st : State) where
  pub Stands-emit :
      {E : Type 0} (item : WorkItem) → Keeps {E = E} (Stands id st) (modify (emit item))
  unfolding emit number_and_send record_and_send
  Stands-emit item = Keeps-modify (emit item) (λ b h. record { here = h.here })

  pub Stands-story :
      {E : Type 0} (near : ItemId) (text : String)
      → Keeps {E = E} (Stands id st) (modify (story near text))
  unfolding story number_and_send record_and_send
  Stands-story near text = Keeps-modify (story near text) (λ b h. record { here = h.here })

  Stands-spawn_delete_plain :
      (env : Option String) (b : Board) → Stands id st b → Stands id st (spawn_delete env b)
  unfolding spawn_delete
  Stands-spawn_delete_plain none b h = h
  Stands-spawn_delete_plain (some env) b h = record { here = h.here }

  pub Stands-spawn_delete :
      {E : Type 0} (env : Option String) → Keeps {E = E} (Stands id st) (modify (spawn_delete env))
  Stands-spawn_delete env = Keeps-modify (spawn_delete env) (Stands-spawn_delete_plain env)

pub ruleset stands_rules =
    (keeps_rules, Stands-emit, Stands-story, Stands-spawn_delete, Keeps-reread)

-- A move to Backlog leaves the card there.
requeue-Gives :
    (id : ItemId) (by : String) (reason : Option String)
    → Gives (Stands id State.backlog) (transition id State.backlog by reason)
unfolding transition finish
requeue-Gives id by reason = Gives-bind_last _ _ λ env.
    Gives-bind _ _ (transition_card-Gives id State.backlog by reason)
      λ item. search stands_rules depth 12

pub requeue_str-Gives :
    (id : ItemId) (by : String) (reason : Option String)
    → Gives (Stands id State.backlog) (transition_str id State.backlog by reason)
unfolding transition_str
requeue_str-Gives id by reason = Gives-map_error _ _ (requeue-Gives id by reason)
