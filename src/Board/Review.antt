-- ===== src/Board/Review.antt =====
-- src/store.rs: the approval of a card in Review and of a plan. `approve_review` and `approve_plan` call
-- one another: `approve_review_round` is the body of the first, with the call that it leads to as an
-- argument.
pub mod Rounds
use sandboard.Prelude.{
  ℕ, zero, suc, String, Option, none, some, List, [], ◌∷◌, Bool, true, false, ◌&&◌, not, length,
  is_some, is_empty, filter_map, if◌then◌else◌,
}
use sandboard.Prelude.Text
use sandboard.Prelude.Text.{format, show_ℕ, trim}
use sandboard.Prelude.Result.{ok}
use sandboard.Map
use sandboard.Map.{nat_key}
use sandboard.Model.State.{State, is_terminal}
use sandboard.Model.Plan.{PlanArtifact, PlanTaskSpec, TaskProposal}
use sandboard.Model.Item.{ItemId, WorkItem, pr_url, is_initial_plan_task}
use sandboard.Board.Feed.{emit, story}
use sandboard.Board.Transition.{change_card, require_card, get_card}
use sandboard.Board.Proposal.{has_tasks, the_tasks, set_proposal}
use sandboard.Board.Moves.{transition_str}
use sandboard.Board.Plan.{resolve_initial_plan_id}
use sandboard.Board.Core.{Board, Action, pure, raise, gets, modify, ◌>>=◌, ◌>>◌, attempt}

missing : ItemId → String
missing id = format ("no work item #" ∷ show_ℕ id ∷ [])

-- A card with a proposal: its Tasks are made by the move to Done.
unfoldable pub approve_proposal : ItemId → Action String WorkItem
approve_proposal id = do
  done ← transition_str id State.done "human" (some "proposal approved")
  modify (
      story id (
        format (
          done.title
          ∷ " approved — "
          ∷ show_ℕ (length (the_tasks done.proposal))
          ∷ " Tasks created."
          ∷ [])))
  pure done

approved_text : WorkItem → Option String → String
approved_text item none = format (item.title ∷ " approved — no PR; marked Done." ∷ [])
approved_text item (some url) =
    if Text.is_empty (trim url)
    then format (item.title ∷ " approved — no PR; marked Done." ∷ [])
    else format (item.title ∷ " approved — Done (" ∷ url ∷ ")." ∷ [])

unfoldable pub approve_work : ItemId → Action String WorkItem
unfolding approved_text
approve_work id = do
  item ← transition_str id State.done "human" (some "approved")
  modify (story id (approved_text item (pr_url item)))
  pure item

-- A plan that an older version of the program left on the Project.
unfoldable pub awaiting_plan : Option WorkItem → Option PlanArtifact
awaiting_plan none = none
awaiting_plan (some project) = elim project.plan [
  | none ↦ none
  | some plan ↦ if is_empty plan.tasks then none else some plan
]

plan_under : Board → Option ItemId → Option PlanArtifact
unfolding awaiting_plan
plan_under b none = none
plan_under b (some pid) = awaiting_plan (get_card b pid)

unfoldable pub drop_project_plan : Option ItemId → Action String Unit
drop_project_plan none = pure tt
drop_project_plan (some pid) =
    attempt {E = Unit}
      (do p ← change_card tt pid (λ _ p. ok (record p { plan = none })); modify (emit p))

unfoldable pub adopt_plan : ItemId → Option ItemId → Option PlanArtifact → Action String Unit
unfolding drop_project_plan
adopt_plan seed_id parent none = pure tt
adopt_plan seed_id parent (some plan) = do
  set_proposal seed_id (record { summary = plan.summary; tasks = plan.tasks })
  drop_project_plan parent

unfoldable pub adopt_unless : Bool → ItemId → Option ItemId → Action String Unit
unfolding plan_under adopt_plan
adopt_unless true seed_id parent = pure tt
adopt_unless false seed_id parent = do
  plan ← gets (λ b. plan_under b parent)
  adopt_plan seed_id parent plan

published_of : Option TaskProposal → List ItemId
published_of proposal = filter_map (λ (t : PlanTaskSpec). t.item_id) (the_tasks proposal)

-- `approve_plan` from where the proposal stands on the card.
unfoldable pub approve_seed :
    (ItemId → Action String WorkItem) → ItemId → Action String (List ItemId)
unfolding missing published_of
approve_seed review seed_id = do
  seed ← require_card (missing seed_id) seed_id
  if has_tasks seed.proposal
      then pure tt
      else raise "no proposal on Initial plan — run propose_breakdown or wait for plan.json"
  done ← review seed_id
  if is_empty (published_of done.proposal)
      then raise "Initial plan reached Done but created no Tasks"
      else pure (published_of done.proposal)

unfoldable pub approve_plan_then :
    (ItemId → Action String (List ItemId)) → ItemId → Action String (List ItemId)
unfolding missing adopt_unless
approve_plan_then finish id = do
  seed_id ← resolve_initial_plan_id id
  seed ← require_card (missing seed_id) seed_id
  if is_terminal seed.state then raise "Initial plan already accepted" else pure tt
  adopt_unless (has_tasks seed.proposal) seed_id seed.parent
  finish seed_id

unfoldable pub approve_plan_by :
    (ItemId → Action String WorkItem) → ItemId → Action String (List ItemId)
approve_plan_by review = approve_plan_then (approve_seed review)

unfoldable pub approve_legacy :
    (ItemId → Action String (List ItemId)) → ItemId → Option ItemId → Action String WorkItem
unfolding missing
approve_legacy approve id none = approve_work id
approve_legacy approve id (some parent) = do
  published ← approve parent
  done ← require_card (missing id) id
  modify (
      story id (
        format (
          done.title
          ∷ " approved — "
          ∷ show_ℕ (length published)
          ∷ " Tasks created from legacy Project Plan."
          ∷ [])))
  pure done

unfoldable pub approve_review_with :
    (ItemId → Action String (List ItemId)) → ItemId → Action String WorkItem
unfolding missing plan_under approve_legacy
approve_review_with approve id = do
  item ← require_card (missing id) id
  if has_tasks item.proposal then approve_proposal id else (do
    plan ← gets (λ b. plan_under b item.parent)
    if is_initial_plan_task item && is_some plan
        then approve_legacy approve id item.parent
        else approve_work id)

unfoldable pub approve_review_round :
    (ItemId → Action String WorkItem) → ItemId → Action String WorkItem
approve_review_round review = approve_review_with (approve_plan_by review)

-- The rounds left: two are enough, since the inner call finds a proposal on the card.
unfoldable pub approve_review_within : ℕ → ItemId → Action String WorkItem
approve_review_within zero id = raise "no rounds left"
approve_review_within (suc rounds) id = approve_review_round (approve_review_within rounds) id

unfoldable pub approve_review : ItemId → Action String WorkItem
approve_review id = approve_review_within 2 id

unfoldable pub approve_plan : ItemId → Action String (List ItemId)
approve_plan id = approve_plan_by approve_review id
