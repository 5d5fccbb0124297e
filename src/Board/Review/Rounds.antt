-- ===== src/Board/Review/Rounds.antt =====
-- src/store.rs: the calls of `approve_review` and `approve_plan` to one another end.
use sandboard.Prelude.{◌≡◌, refl, ap, String, some, List, true, Option-cases, Bool-cases, inl, inr}
use sandboard.Model.Item.{ItemId, WorkItem}
use sandboard.Board.Transition.{get_card, require_card, found_or}
use sandboard.Board.Proposal.{has_tasks}
use sandboard.Board.Review.{
  approve_proposal, approve_seed, approve_plan_then, approve_plan_by, approve_review_with,
  approve_review_round,
}
use sandboard.Board.Core.{Board, Action, ◌>>=◌}

round-proposal :
    (approve : ItemId → Action String (List ItemId)) (id : ItemId) (b : Board) (it : WorkItem)
    → get_card b id ≡ some it
    → has_tasks it.proposal ≡ true
    → approve_review_with approve id b ≡ approve_proposal id b
unfolding approve_review_with require_card found_or ◌>>=◌
round-proposal approve id b it found tasks = rw (found, tasks) refl

module _ (r r' : ItemId → Action String (List ItemId)) where
  same_seed :
      (id : ItemId) (b : Board)
      → approve_seed (approve_review_with r) id b ≡ approve_seed (approve_review_with r') id b
  unfolding approve_seed require_card found_or ◌>>=◌
  same_seed id b = elim (Option-cases (get_card b id)) [
    | inl gone ↦ rw gone refl
    | inr (it, found) ↦ elim (Bool-cases (has_tasks it.proposal)) [
      | inl tasks ↦
          rw
            (
              found,
              tasks,
              round-proposal r id b it found tasks,
              round-proposal r' id b it found tasks,
            )
            refl
      | inr idle ↦ rw (found, idle) refl
    ]
  ]

  pub same_plan : approve_plan_by (approve_review_with r) ≡ approve_plan_by (approve_review_with r')
  unfolding approve_plan_by
  same_plan = ap approve_plan_then (λ i id b. same_seed id b i)

-- The second call of `approve_review` on the way does not call `approve_plan` again, whatever comes
-- after it: one round inside another is all that the body asks for.
pub approve_review_round_lem :
    (last last' : ItemId → Action String WorkItem) (id : ItemId) (b : Board)
    → approve_review_round (approve_review_round last) id b
      ≡ approve_review_round (approve_review_round last') id b
unfolding approve_review_round
approve_review_round_lem last last' id b =
    ap (λ approve. approve_review_with approve id b)
      (same_plan (approve_plan_by last) (approve_plan_by last'))
