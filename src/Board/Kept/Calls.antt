-- ===== src/Board/Kept/Calls.antt =====
-- src/store.rs: the boards that are reached from a new one by a sequence of calls, with the clock
-- moving on and agent lines coming in between.
pub mod Holds
use sandboard.Prelude.{ℕ}
use sandboard.Schema.{Schema}
use sandboard.Board.Feed.{append_agent_log, clear_agent_logs}
use sandboard.Board.Create.{create, seed_initial_plan}
use sandboard.Board.Proposal.{set_proposal, materialize_proposal, materialize_proposal_on_done}
use sandboard.Board.Fields.{
  set_blocked_by, set_environment, set_conversation_id, set_pull_requests, clear_run_failures,
  update_item,
}
use sandboard.Board.Moves.{transition}
use sandboard.Board.Worker.{
  claim, heartbeat, report, release_with_reason, release, escalate, record_run_failure,
  reopen_for_adoption, sweep_leases,
}
use sandboard.Board.Dispatch.{
  enqueue_dispatch, clear_dispatch, auto_enqueue_project, auto_enqueue_all, set_auto_dispatch,
}
use sandboard.Board.Human.{steer, answer_escalation, park, unpark, halt, request_changes}
use sandboard.Board.Scope.{cut_scope, unarchive_scope, delete_item}
use sandboard.Board.Cockpit.{
  create_cockpit_session, update_cockpit_session, set_cockpit_sandbox_phase, park_cockpit_session,
  resume_cockpit_session, stop_cockpit_session,
}
use sandboard.Model.Item.{ItemId}
use sandboard.Board.Project.{create_project, create_task, materialize_pending_proposal}
use sandboard.Board.Call.{Call}
use sandboard.Board.Core.{Board, new_board}
use sandboard.Board.Plan.{propose_plan, heal_completed_epics}
use sandboard.Board.Review.{approve_review, approve_plan}
use sandboard.Board.Split.{propose_split}
use sandboard.Board.Merge.{
  report_pull_request, set_pr_url, complete_for_merged_pr_by, apply_pr_review_feedback_by,
}
use sandboard.Board.Rebase.{dispatch_rebase, record_rebase_outcome}
use sandboard.Board.Advance.{notify_main_advanced}

unfoldable pub run : Call → Board → Board
run (Call.tick now) b = record b { clock = now }
run (Call.append_agent_log id line) b = append_agent_log id line b
run (Call.clear_agent_logs id) b = clear_agent_logs id b
run (Call.create parent title intent dod origin above_line capability) b =
    (create parent title intent dod origin above_line capability b).1
run (Call.set_proposal id proposal) b = (set_proposal id proposal b).1
run (Call.materialize_proposal id by origin) b = (materialize_proposal id by origin b).1
run (Call.seed_initial_plan id) b = (seed_initial_plan id b).1
run (Call.set_blocked_by id blockers) b = (set_blocked_by id blockers b).1
run (Call.materialize_proposal_on_done id by) b = (materialize_proposal_on_done id by b).1
run (Call.transition id to by reason) b = (transition id to by reason b).1
run (Call.claim id agent_id model timeout_secs) b = (claim id agent_id model timeout_secs b).1
run (Call.heartbeat id agent_id progress) b = (heartbeat id agent_id progress b).1
run (Call.report id agent_id added removed gates) b = (report id agent_id added removed gates b).1
run (Call.release_with_reason id agent_id reason) b = (release_with_reason id agent_id reason b).1
run (Call.release id agent_id) b = (release id agent_id b).1
run (Call.escalate id agent_id question options recommended) b =
    (escalate id agent_id question options recommended b).1
run (Call.record_run_failure id reason max_attempts) b =
    (record_run_failure id reason max_attempts b).1
run (Call.reopen_for_adoption id agent_id timeout_secs) b =
    (reopen_for_adoption id agent_id timeout_secs b).1
run Call.sweep_leases b = (sweep_leases b).1
run (Call.enqueue_dispatch id) b = (enqueue_dispatch id b).1
run (Call.clear_dispatch id) b = (clear_dispatch id b).1
run (Call.auto_enqueue_project project_id) b = (auto_enqueue_project project_id b).1
run Call.auto_enqueue_all b = (auto_enqueue_all b).1
run (Call.set_auto_dispatch id enabled) b = (set_auto_dispatch id enabled b).1
run (Call.steer id text) b = (steer id text b).1
run (Call.answer_escalation id choice) b = (answer_escalation id choice b).1
run (Call.park id reason) b = (park id reason b).1
run (Call.unpark id) b = (unpark id b).1
run (Call.halt id reason) b = (halt id reason b).1
run (Call.request_changes id note) b = (request_changes id note b).1
run (Call.cut_scope rounds id reason) b = (cut_scope rounds id reason b).1
run (Call.unarchive_scope rounds id reason) b = (unarchive_scope rounds id reason b).1
run (Call.create_cockpit_session environment conversation_id) b =
    (create_cockpit_session environment conversation_id b).1
run (Call.update_cockpit_session environment conversation_id) b =
    (update_cockpit_session environment conversation_id b).1
run (Call.set_cockpit_sandbox_phase phase detail) b = (set_cockpit_sandbox_phase phase detail b).1
run Call.park_cockpit_session b = (park_cockpit_session b).1
run Call.resume_cockpit_session b = (resume_cockpit_session b).1
run Call.stop_cockpit_session b = (stop_cockpit_session b).1
run (Call.set_environment id sandbox) b = (set_environment id sandbox b).1
run (Call.set_conversation_id id conversation) b = (set_conversation_id id conversation b).1
run (Call.set_pull_requests id prs) b = (set_pull_requests id prs b).1
run (Call.clear_run_failures id) b = (clear_run_failures id b).1
run (Call.update_item id title intent definition_of_done engine project_prompt) b =
    (update_item id title intent definition_of_done engine project_prompt b).1
run (Call.create_project title intent clone_repo above_line project_prompt) b =
    (create_project title intent clone_repo above_line project_prompt b).1
run (Call.create_task parent title intent dod blocked_by capability above_line) b =
    (create_task parent title intent dod blocked_by capability above_line b).1
run (Call.materialize_pending_proposal id) b = (materialize_pending_proposal id b).1
run (Call.propose_plan id summary tasks cancel_keys) b =
    (propose_plan id summary tasks cancel_keys b).1
run Call.heal_completed_epics b = (heal_completed_epics b).1
run (Call.approve_review id) b = (approve_review id b).1
run (Call.approve_plan id) b = (approve_plan id b).1
run (Call.propose_split is_alphanumeric id agent_id children max_children) b =
    (propose_split is_alphanumeric id agent_id children max_children b).1
run (Call.report_pull_request id pr) b = (report_pull_request id pr b).1
run (Call.set_pr_url id url) b = (set_pr_url id url b).1
run (Call.complete_for_merged_pr_by pr_url pr_number by) b =
    (complete_for_merged_pr_by pr_url pr_number by b).1
run (Call.apply_pr_review_feedback_by pr_url pr_number review_state by) b =
    (apply_pr_review_feedback_by pr_url pr_number review_state by b).1
run (Call.dispatch_rebase id) b = (dispatch_rebase id b).1
run (Call.record_rebase_outcome id outcome) b = (record_rebase_outcome id outcome b).1
run (Call.notify_main_advanced upstream advanced_repo ref_name commit_sha) b =
    (notify_main_advanced upstream advanced_repo ref_name commit_sha b).1

-- The boards that a program comes to, from the start, by calls and deletions.
pub data Reach (schema : Schema) (start : ℕ) : Board → Type 0 where
  started : Reach schema start (new_board schema start)
  called : {b : Board} → (c : Call) → Reach schema start b → Reach schema start (run c b)
  deleted :
      {b : Board}
      → (rounds : ℕ) (id : ItemId) → Reach schema start b
      → Reach schema start (delete_item rounds id b).1
