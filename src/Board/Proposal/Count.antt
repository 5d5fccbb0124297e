-- ===== src/Board/Proposal/Count.antt =====
-- src/store.rs: how many cards a proposal is turned into, and what a repeated run does.
use sandboard.Prelude.{
  ◌+◌, ◌≡◌, refl, String, Option, some, List, [], ◌∷◌, arith, length, length-append,
}
use sandboard.Prelude.Result.{ok}
use sandboard.Map
use sandboard.Map.{nat_key}
use sandboard.Model.Plan.{PlanTaskSpec, TaskProposal}
use sandboard.Model.Item.{ItemId, WorkItem, Origin}
use sandboard.Board.Tree.{populate_blockers}
use sandboard.Board.Transition.{require_card, get_card, with_blockers, found_or}
use sandboard.Board.Proposal.{
  make_siblings, add_card, no_cards, Made, need_tasks, the_tasks, has_tasks, materialize_proposal,
}
use sandboard.Board.Core.{Board}
use sandboard.Board.Core.Returns.{
  Returns, Returns-pure, Returns-lift, Returns-bind, Returns-last, Returns-after,
}

make_siblings_count :
    (project_id : ItemId) (card : WorkItem) (by : String) (origin : Origin)
    (existing : List WorkItem) (specs : List PlanTaskSpec) (m : Made)
    → Returns
        (λ out. length out.made ≡ length m.made + length specs)
        (make_siblings project_id card by origin existing specs m)
unfolding make_siblings add_card
make_siblings_count project_id card by origin existing [] m = Returns-pure m (omega arith)
make_siblings_count project_id card by origin existing (spec ∷ rest) m = Returns-last _ _ λ sibling.
    record {
      value = λ b out e. omega (
        arith,
        (make_siblings_count project_id card by origin existing rest
              (add_card spec sibling m)).value
            b out e,
        length-append m.made (sibling ∷ []),
      );
    }

tasks_found :
    (id : ItemId) (o : Option TaskProposal) (p : TaskProposal) (ts : List PlanTaskSpec)
    → o ≡ some p
    → need_tasks id o ≡ ok ts
    → ts ≡ p.tasks
unfolding need_tasks has_tasks the_tasks
tasks_found id o p ts has e = ground arith

-- Where the materialization of a proposal succeeds, it returns one card for each task of the proposal,
-- whether the card was there before or is new.
pub materialize_proposal_count :
    (id : ItemId) (by : String) (origin : Origin) (b : Board) (card : WorkItem) (p : TaskProposal)
    (made : List WorkItem)
    → Map.get b.state.items id ≡ some card
    → card.proposal ≡ some p
    → (materialize_proposal id by origin b).0 ≡ ok made
    → length made ≡ length p.tasks
unfolding materialize_proposal no_cards require_card get_card with_blockers found_or
    populate_blockers
materialize_proposal_count id by origin b card p made found has done =
    Returns-after {Q = λ out. length out ≡ length p.tasks} _ _ b b (populate_blockers b.state card)
      made (rw (require_card, get_card, found) refl)
      (Returns-bind {R = λ ts. ts ≡ p.tasks} _ _
        (Returns-lift _ (λ ts e. tasks_found id card.proposal p ts has e))
        λ tasks same. Returns-last _ _ λ project_id. Returns-last _ _ λ existing.
          Returns-bind _ _
            (make_siblings_count project_id (populate_blockers b.state card) by origin existing
              tasks no_cards)
            λ m count.
              Returns-last _ _
                λ _. Returns-last _ _ λ _. Returns-pure m.made (rw (← same) (omega (arith, count))))
      done
