-- ===== src/Board/Create.antt =====
-- src/store.rs: new cards. A Project gets a claimable Initial plan Task with it, so `create` and
-- `seed_initial_plan` call one another: `create_under` is `create` up to the seeding, which is all of it
-- for a card with a parent.
use sandboard.Prelude.{
  ◌+◌, String, Option, none, some, [], ◌∷◌, Bool, false, ◌&&◌, find_first, is_some, if◌then◌else◌,
}
use sandboard.Prelude.Text.{format, show_ℕ, is_empty}
use sandboard.Prelude.Result.{Result, ok, err}
use sandboard.Map
use sandboard.Map.{nat_key}
use sandboard.Schema.{Schema, Level, project_level, task_level}
use sandboard.Schema.Remotes.{clone_repo_from_prose, clone_repo_prose_line}
use sandboard.Machine.{error_text}
use sandboard.Model.State.{State}
use sandboard.Model.Plan.{initial_plan_title}
use sandboard.Model.Item.{
  ItemId, WorkItem, Origin, new_item, level_is, is_project, is_initial_plan_task,
}
use sandboard.Board.State.{BoardState, insert_item}
use sandboard.Board.State.Indexes.{is_id}
use sandboard.Board.Tree.{populate_blockers}
use sandboard.Board.Feed.{emit, story}
use sandboard.Board.Transition.{transition_card, require_card, reread}
use sandboard.Board.Core.{
  Board, Action, pure, raise, lift, gets, modify, ◌>>=◌, ◌>>◌, map_error, attempt,
}

unfoldable pub check_top : ItemId → Option WorkItem → Result String Unit
check_top pid none = err (format ("no parent #" ∷ show_ℕ pid ∷ []))
check_top pid (some p) =
    if is_some p.parent
    then err "tasks are flat under a Project; cannot nest under another task"
    else if level_is p.level "Task"
    then err "cannot add children to a Task; parent must be a Project"
    else ok tt

-- The parent of a new card has to be a Project.
unfoldable pub check_parent : BoardState → Option ItemId → Result String Unit
unfolding check_top
check_parent s none = ok tt
check_parent s (some pid) = check_top pid (Map.get s.items pid)

named_or : Option Level → String → String
named_or none name = name
named_or (some l) _ = l.name

level_for : Schema → Option ItemId → String
unfolding named_or
level_for schema none = named_or (project_level schema) "Project"
level_for schema (some _) = named_or (task_level schema) "Task"

-- The card that `create` inserts.
unfoldable pub fresh_card :
    Board
    → Option ItemId
    → String
    → String
    → Option String
    → Origin
    → Bool
    → Option String
    → WorkItem
unfolding level_for
fresh_card b parent title intent definition_of_done origin above_line capability =
    record (new_item b.clock b.state.next_id title intent) {
      parent = parent;
      level = some (level_for b.schema parent);
      definition_of_done = definition_of_done;
      origin = origin;
      above_line = above_line;
      capability = capability;
      plan = none;
      project_prompt = none;
    }

-- The block under the write lock: the next id is taken and the card is indexed.
unfoldable pub insert_new : {E : Type 0} → (Board → WorkItem) → Action E WorkItem
insert_new card b =
    let item = card b in
    let s = insert_item item (record b.state { next_id = b.state.next_id + 1 }) in
    (ok (populate_blockers s item), record b { state = s })

unfoldable pub create_under :
    Option ItemId
    → String
    → String
    → Option String
    → Origin
    → Bool
    → Option String
    → Action String WorkItem
create_under parent title intent definition_of_done origin above_line capability = do
  admitted ← gets (λ b. check_parent b.state parent)
  lift admitted
  item ←
      insert_new
        (λ b. fresh_card b parent title intent definition_of_done origin above_line capability)
  modify (emit item)
  pure item

unfoldable pub initial_plan_of : BoardState → ItemId → Option WorkItem
initial_plan_of s project_id =
    find_first (λ it. is_id it.parent project_id && is_initial_plan_task it) (Map.values s.items)

or_empty : Option String → String
or_empty none = ""
or_empty (some s) = s

prose_line_of : Option String → String
prose_line_of none = ""
prose_line_of (some clone) = clone_repo_prose_line clone

-- The intent of the Initial plan Task, with the repository that the Project names.
seed_intent : String → Option String → String
unfolding or_empty prose_line_of
seed_intent project_title clone =
    let clone_line = prose_line_of clone in
    if is_empty clone_line
    then format (
        "Propose sibling Tasks for «" ∷ project_title
        ∷ "»: write /sandbox/.sandboard/plan.json (summary + tasks with key, title, intent, "
        ∷ "definition_of_done, optional blocked_by_keys). In each task's intent and/or DoD, name the "
        ∷ "exact repository to clone (`owner/name`, and fork if cross-fork). Do **not** open a PR. "
        ∷ "Do not write split.json. Card goes to Review — human Approve creates those Tasks." ∷ [])
    else format (
        clone_line
        ∷ " Propose sibling Tasks for «"
        ∷ project_title
        ∷ "»: write /sandbox/.sandboard/plan.json (summary + tasks with key, title, intent, "
        ∷ "definition_of_done, optional blocked_by_keys). In each task's intent and/or DoD, name the "
        ∷ "exact repository to clone (default `"
        ∷ or_empty clone
        ∷ "` unless a task targets another repo). Do **not** open a PR. Do not write split.json. "
        ∷ "Card goes to Review — human Approve creates those Tasks."
        ∷ [])

seed_dod : Option String → String
seed_dod none =
    "Write plan.json with proposed Tasks (each names clone target). Approve creates them."
seed_dod (some c) = format (
    "Write plan.json with proposed Tasks (each names clone target; default " ∷ c
    ∷ "). Approve creates them." ∷ [])

-- `transition` to a state other than Done: the move, the event, and the card read again.
-- The deletion of a retired card's sandbox is in `Board.Moves.transition`.
unfoldable pub transition_plain : ItemId → State → String → Option String → Action String WorkItem
transition_plain id to by reason = do
  item ← map_error error_text (transition_card id to by reason)
  modify (emit item)
  reread id item

unfoldable pub seed_new : WorkItem → Action String WorkItem
unfolding seed_intent seed_dod
seed_new project = do
  let title = initial_plan_title project.title
  let clone = clone_repo_from_prose project.intent
  seed ←
      create_under (some project.id) title (seed_intent project.title clone) (some (seed_dod clone))
        Origin.planner false none
  attempt {E = String} (transition_plain seed.id State.shaping "operator" (some "init plan"))
  placed ← transition_plain seed.id State.backlog "operator" (some "init plan")
  modify (story project.id (format ("Seeded " ∷ title ∷ " Task #" ∷ show_ℕ placed.id ∷ "." ∷ [])))
  pure placed

unfoldable pub seed_or_keep : Option WorkItem → WorkItem → Action String WorkItem
unfolding seed_new
seed_or_keep none project = seed_new project
seed_or_keep (some existing) project = pure existing

unfoldable pub seed_initial_plan : ItemId → Action String WorkItem
unfolding seed_or_keep
seed_initial_plan project_id = do
  project ← require_card (format ("no work item #" ∷ show_ℕ project_id ∷ [])) project_id
  if is_project project
      then (do
        existing ← gets (λ b. initial_plan_of b.state project_id)
        seed_or_keep existing project)
      else raise (
          format (
            "seed_initial_plan requires a Project; card #"
            ∷ show_ℕ project_id
            ∷ " is not one"
            ∷ []))

-- `create`: an error of the seeding is logged and dropped.
unfoldable pub create :
    Option ItemId
    → String
    → String
    → Option String
    → Origin
    → Bool
    → Option String
    → Action String WorkItem
create parent title intent definition_of_done origin above_line capability = do
  item ← create_under parent title intent definition_of_done origin above_line capability
  if is_project item then attempt {E = String} (seed_initial_plan item.id) else pure tt
  reread item.id item
