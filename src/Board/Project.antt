-- ===== src/Board/Project.antt =====
-- src/store.rs: `create_project` and `create_task`, the creations that the API offers, the Tasks of a
-- proposal that were not made in time, and the card that an agent holds.
use sandboard.Prelude.{
  String, Option, none, some, List, [], ◌∷◌, Bool, false, ◌&&◌, ◌||◌, is_some, length, find_first,
  if◌then◌else◌,
}
use sandboard.Prelude.Text
use sandboard.Prelude.Text.{format, show_ℕ, str_eq, trim}
use sandboard.Map
use sandboard.Map.{nat_key}
use sandboard.Schema.Remotes.{
  OwnerNameError, parse_owner_name, clone_repo_prose_line, clone_repo_from_prose,
}
use sandboard.Model.State.{State, state_eq}
use sandboard.Model.Item.{ItemId, WorkItem, Lease, Origin, is_project}
use sandboard.Machine.{debug_state}
use sandboard.Board.Feed.{story}
use sandboard.Board.Transition.{require_card, reread}
use sandboard.Board.Create.{create, seed_initial_plan}
use sandboard.Board.Fields.{set_blocked_by, update_item}
use sandboard.Board.Proposal.{materialize_proposal, origin_of}
use sandboard.Board.Moves.{transition_str}
use sandboard.Board.Core.{Board, Action, pure, raise, lift, modify, ◌>>=◌, ◌>>◌, map_error, attempt}

-- The texts of `parse_owner_name` are told apart by their kind.
pub data ProjectError : Type 0 where
  owner_name : OwnerNameError → ProjectError
  refused : String → ProjectError

stamped_intent : String → String → String
stamped_intent intent stamp =
    let trimmed = trim intent in
    if is_some (clone_repo_from_prose trimmed)
    then trimmed
    else if Text.is_empty trimmed
    then stamp
    else format (trimmed ∷ "\n\n" ∷ stamp ∷ [])

prompt_of : Option String → Option String
prompt_of none = none
prompt_of (some p) = if Text.is_empty (trim p) then none else some (trim p)

unfoldable pub write_prompt : ItemId → Option String → Action ProjectError Unit
write_prompt id none = pure tt
write_prompt id (some prompt) =
    attempt {E = String} (update_item id none none none none (some prompt))

unfoldable pub create_project :
    String → String → String → Bool → Option String → Action ProjectError WorkItem
unfolding stamped_intent prompt_of write_prompt
create_project title intent clone_repo above_line project_prompt = do
  clone ← map_error ProjectError.owner_name (lift (parse_owner_name clone_repo))
  item ← map_error ProjectError.refused (
      create none title (stamped_intent intent (clone_repo_prose_line clone)) none Origin.human
        above_line none)
  write_prompt item.id (prompt_of project_prompt)
  attempt {E = String} (seed_initial_plan item.id)
  reread item.id item

-- The line that names the Project's repository, before an intent that names none.
with_default : String → Option String → String
with_default intent none = intent
with_default intent (some clone) =
    let stamp = format ("Clone repository: " ∷ clone ∷ "." ∷ []) in
    let trimmed = trim intent in
    if Text.is_empty trimmed then stamp else format (stamp ∷ " " ∷ trimmed ∷ [])

task_intent : String → String → String → String
unfolding with_default
task_intent intent dod project_intent =
    if is_some (clone_repo_from_prose intent) || is_some (clone_repo_from_prose dod)
    then intent
    else with_default intent (clone_repo_from_prose project_intent)

unfoldable pub block_new : ItemId → List ItemId → Action String Unit
block_new id [] = pure tt
block_new id (b ∷ rest) = set_blocked_by id (b ∷ rest)

unfoldable pub create_task :
    ItemId → String → String → String → List ItemId → Option String → Bool → Action String WorkItem
unfolding task_intent block_new
create_task parent title intent definition_of_done blocked_by capability above_line = do
  project ← require_card (format ("no parent #" ∷ show_ℕ parent ∷ [])) parent
  if is_project project
      then pure tt
      else raise "tasks are flat under a Project; cannot nest under another task"
  let dod = trim definition_of_done
  if Text.is_empty dod
      then raise "definition_of_done is required so the Task can enter Backlog"
      else pure tt
  item ←
      create (some parent) title (task_intent intent dod project.intent) (some dod) Origin.human
        above_line capability
  transition_str item.id State.shaping "human" (some "create task")
  placed ← transition_str item.id State.backlog "human" (some "create task")
  block_new placed.id blocked_by
  reread placed.id placed

unfoldable pub tell_made : ItemId → String → List WorkItem → Action String Unit
tell_made id title [] = pure tt
tell_made id title (m ∷ made) = modify (
    story id (
      format
        (title ∷ " — " ∷ show_ℕ (length (m ∷ made)) ∷ " Tasks created from proposal (heal)." ∷ [])))

unfoldable pub materialize_pending_proposal : ItemId → Action String (List WorkItem)
unfolding tell_made
materialize_pending_proposal id = do
  card ← require_card (format ("no work item #" ∷ show_ℕ id ∷ [])) id
  if state_eq card.state State.done
      then pure tt
      else raise
          (format ("card #" ∷ show_ℕ id ∷ " is " ∷ debug_state card.state ∷ "; expected Done" ∷ []))
  made ← materialize_proposal id "operator" (origin_of id card)
  tell_made id card.title made
  pure made

leased_by : String → Option Lease → Bool
leased_by agent_id none = false
leased_by agent_id (some l) = str_eq l.agent_id agent_id

id_of : Option WorkItem → Option ItemId
id_of none = none
id_of (some it) = some it.id

unfoldable pub leased_to : Board → String → Option ItemId
unfolding leased_by id_of
leased_to b agent_id = id_of (
    find_first
      (λ it.
        (state_eq it.state State.claimed || state_eq it.state State.running)
        && leased_by agent_id it.lease)
      (Map.values b.state.items))
