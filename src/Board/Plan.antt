-- ===== src/Board/Plan.antt =====
-- src/store.rs: the Initial plan of a Project, and Projects whose Tasks are all closed.
use sandboard.Prelude.{
  ℕ, ◌+◌, String, Option, none, some, List, [], ◌∷◌, Bool, false, ◌&&◌, ◌||◌, not, is_none,
  is_empty, any, all, keep, length, find_first, if◌then◌else◌,
}
use sandboard.Prelude.Text
use sandboard.Prelude.Text.{format, show_ℕ, trim}
use sandboard.Prelude.Result.{Result, ok, err}
use sandboard.Map
use sandboard.Map.{nat_key}
use sandboard.Model.State.{State, state_eq, is_terminal}
use sandboard.Model.Plan.{PlanTaskSpec, TaskProposal}
use sandboard.Model.Item.{ItemId, WorkItem, is_project, is_initial_plan_task}
use sandboard.Board.State.{BoardState}
use sandboard.Board.State.Indexes.{is_id}
use sandboard.Board.Tree.{children_of_indexed}
use sandboard.Board.Feed.{story}
use sandboard.Board.Transition.{require_card, get_card}
use sandboard.Board.Create.{initial_plan_of}
use sandboard.Board.Proposal.{has_tasks, set_proposal}
use sandboard.Board.Moves.{transition}
use sandboard.Board.Core.{Action, pure, raise, lift, gets, modify, ◌>>=◌, ◌>>◌, attempt}

is_seed : Option WorkItem → Bool
is_seed none = false
is_seed (some c) = is_initial_plan_task c

seed_or_missing : ItemId → Option ItemId → Result String ItemId
seed_or_missing id none = err (format ("Project #" ∷ show_ℕ id ∷ " has no Initial plan Task" ∷ []))
seed_or_missing id (some cid) = ok cid

unfoldable pub resolve_initial_plan_id : ItemId → Action String ItemId
unfolding is_seed seed_or_missing
resolve_initial_plan_id id = do
  item ← require_card (format ("no work item #" ∷ show_ℕ id ∷ [])) id
  if is_initial_plan_task item
      then pure id
      else if is_project item
      then (do
        found ←
            gets λ b. find_first (λ cid. is_seed (get_card b cid)) (children_of_indexed b.state id)
        lift (seed_or_missing id found))
      else raise "plan operations require a Project or Initial plan Task"

has_work : BoardState → ItemId → Bool
has_work s project_id =
    any
      (λ c.
        is_id c.parent project_id
        && not (is_initial_plan_task c)
        && not (state_eq c.state State.retired))
      (Map.values s.items)

label_of : BoardState → ItemId → Option WorkItem → String
unfolding has_work
label_of s project_id none = "no_plan"
label_of s project_id (some seed) =
    if state_eq seed.state State.done
    then (if has_tasks seed.proposal || has_work s project_id then "approved" else "no_plan")
    else if has_tasks seed.proposal
    then "awaiting_approval"
    else "no_plan"

unfoldable pub plan_status_label : BoardState → ItemId → String
unfolding label_of
plan_status_label s project_id = label_of s project_id (initial_plan_of s project_id)

unfoldable pub check_plan_tasks : List PlanTaskSpec → Result String Unit
check_plan_tasks [] = ok tt
check_plan_tasks (t ∷ rest) =
    if Text.is_empty (trim t.definition_of_done)
    then err (
        format (
          "task '" ∷ t.title ∷ "' has no definition of done; without one the board is a wish list"
          ∷ []))
    else if Text.is_empty (trim t.key)
    then err (format ("task '" ∷ t.title ∷ "' needs a stable plan key" ∷ []))
    else check_plan_tasks rest

abbrev or_self : Option ItemId → ItemId → ItemId
or_self none id = id
or_self (some p) id = p

-- The keys to cancel are ignored.
unfoldable pub propose_plan :
    ItemId → String → List PlanTaskSpec → List String → Action String TaskProposal
unfolding check_plan_tasks
propose_plan id summary tasks cancel_keys = do
  if is_empty tasks then raise "a plan needs at least one task" else pure tt
  lift (check_plan_tasks tasks)
  seed_id ← resolve_initial_plan_id id
  seed ← require_card (format ("no work item #" ∷ show_ℕ seed_id ∷ [])) seed_id
  if is_terminal seed.state
      then raise "Initial plan already accepted — proposal is frozen"
      else pure tt
  let proposal : TaskProposal = record { summary = summary; tasks = tasks }
  set_proposal seed_id proposal
  modify (
      story (or_self seed.parent seed_id) (
        format (
          "Plan proposed on Initial plan ("
          ∷ show_ℕ (length tasks)
          ∷ " tasks) — awaiting Approve."
          ∷ [])))
  pure proposal

is_closed : WorkItem → Bool
is_closed c = state_eq c.state State.done || state_eq c.state State.retired

-- There are children, and each of them is done or retired.
unfoldable pub all_children_closed : BoardState → ItemId → Bool
unfolding is_closed
all_children_closed s pid =
    let children = keep (λ i. is_id i.parent pid) (Map.values s.items) in
    not (is_empty children) && all is_closed children

open_roots : List WorkItem → List WorkItem
unfolding is_closed
open_roots items = keep (λ i. is_none i.parent && not (is_closed i)) items

unfoldable pub heal_epic : WorkItem → Action String ℕ
heal_epic project = do
  closed ← gets (λ b. all_children_closed b.state project.id)
  if closed
      then (do
        if state_eq project.state State.draft
            then attempt (transition project.id State.shaping "epic-hygiene" none)
            else pure tt
        attempt (transition project.id State.done "epic-hygiene" (some "All child tasks completed"))
        pure 1)
      else pure 0

unfoldable pub heal_epics : List WorkItem → Action String ℕ
heal_epics [] = pure 0
heal_epics (project ∷ rest) = do
  healed ← heal_epic project
  later ← heal_epics rest
  pure (healed + later)

-- The Projects are chosen, with their states, before the first of them is moved.
unfoldable pub heal_completed_epics : Action String ℕ
unfolding open_roots
heal_completed_epics = do
  projects ← gets (λ b. open_roots (Map.values b.state.items))
  heal_epics projects
