-- ===== src/Board/Invariant/Projects.antt =====
-- A closed predicate survives the creations that the API offers.
use sandboard.Prelude.{String, Option, none, some, List, [], ◌∷◌, Bool}
use sandboard.Model.Item.{ItemId, WorkItem}
use sandboard.Board.Project.{
  write_prompt, create_project, block_new, create_task, tell_made, materialize_pending_proposal,
}
use sandboard.Board.Core.{Board}
use sandboard.Board.Core.Keeps.{Keeps, Keeps-pure}
use sandboard.Board.Invariant.Closed.{Closed, closed_rules}
use sandboard.Board.Invariant.Creation.{
  create-Keeps, seed_initial_plan-Keeps, set_blocked_by-Keeps, materialize_proposal-Keeps,
}
use sandboard.Board.Invariant.Moving.{move_rules}
use sandboard.Board.Invariant.Session.{update_item-Keeps}

module _ {P : Board → Type 0} (c : Closed P) where
  write_prompt-Keeps : (id : ItemId) (prompt : Option String) → Keeps P (write_prompt id prompt)
  unfolding write_prompt
  write_prompt-Keeps id none = Keeps-pure tt
  write_prompt-Keeps id (some prompt) = search (closed_rules, update_item-Keeps)

  pub create_project-Keeps :
      (title intent clone_repo : String) (above_line : Bool) (project_prompt : Option String)
      → Keeps P (create_project title intent clone_repo above_line project_prompt)
  unfolding create_project
  create_project-Keeps title intent clone_repo above_line project_prompt =
      search (closed_rules, create-Keeps, write_prompt-Keeps, seed_initial_plan-Keeps) depth 16

  block_new-Keeps : (id : ItemId) (blockers : List ItemId) → Keeps P (block_new id blockers)
  unfolding block_new
  block_new-Keeps id [] = Keeps-pure tt
  block_new-Keeps id (b ∷ rest) = set_blocked_by-Keeps c id (b ∷ rest)

  pub create_task-Keeps :
      (parent : ItemId) (title intent definition_of_done : String) (blocked_by : List ItemId)
      (capability : Option String) (above_line : Bool)
      → Keeps P
          (create_task parent title intent definition_of_done blocked_by capability above_line)
  unfolding create_task
  create_task-Keeps parent title intent definition_of_done blocked_by capability above_line =
      search (move_rules, create-Keeps, block_new-Keeps) depth 20

  tell_made-Keeps :
      (id : ItemId) (title : String) (made : List WorkItem) → Keeps P (tell_made id title made)
  unfolding tell_made
  tell_made-Keeps id title [] = Keeps-pure tt
  tell_made-Keeps id title (m ∷ made) = search closed_rules

  pub materialize_pending_proposal-Keeps : (id : ItemId) → Keeps P (materialize_pending_proposal id)
  unfolding materialize_pending_proposal
  materialize_pending_proposal-Keeps id =
      search (closed_rules, materialize_proposal-Keeps, tell_made-Keeps) depth 12
