-- ===== src/Board/Kept/Calls/Holds.antt =====
-- src/store.rs: what survives every call holds of every board that is reached.
use sandboard.Prelude.{ℕ}
use sandboard.Schema.{Schema}
use sandboard.Model.Item.{ItemId}
use sandboard.Board.Call.{Call}
use sandboard.Board.Core.{Board, new_board}
use sandboard.Board.Feed.{append_agent_log, clear_agent_logs}
use sandboard.Board.Scope.{delete_item}
use sandboard.Board.Kept.Calls.{run, Reach, started, called, deleted}
use sandboard.Board.Invariant.Creation.{
  create-Keeps, set_proposal-Keeps, materialize_proposal-Keeps, seed_initial_plan-Keeps,
  set_blocked_by-Keeps,
}
use sandboard.Board.Invariant.Moving.{materialize_proposal_on_done-Keeps, transition-Keeps}
use sandboard.Board.Invariant.Agent.{
  claim-Keeps, heartbeat-Keeps, report-Keeps, release_with_reason-Keeps, release-Keeps,
  escalate-Keeps, record_run_failure-Keeps, reopen_for_adoption-Keeps, sweep_leases-Keeps,
}
use sandboard.Board.Invariant.Queue.{
  enqueue_dispatch-Keeps, clear_dispatch-Keeps, auto_enqueue_project-Keeps, auto_enqueue_all-Keeps,
  set_auto_dispatch-Keeps,
}
use sandboard.Board.Invariant.Humans.{
  steer-Keeps, answer_escalation-Keeps, park-Keeps, unpark-Keeps, halt-Keeps, request_changes-Keeps,
}
use sandboard.Board.Invariant.Walks.{cut_scope-Keeps, unarchive_scope-Keeps}
use sandboard.Board.Invariant.Session.{
  create_cockpit_session-Keeps, update_cockpit_session-Keeps, set_cockpit_sandbox_phase-Keeps,
  park_cockpit_session-Keeps, resume_cockpit_session-Keeps, stop_cockpit_session-Keeps,
  set_environment-Keeps, set_conversation_id-Keeps, set_pull_requests-Keeps,
  clear_run_failures-Keeps, update_item-Keeps,
}
use sandboard.Board.Invariant.Projects.{
  create_project-Keeps, create_task-Keeps, materialize_pending_proposal-Keeps,
}
use sandboard.Board.Invariant.Closed.{Closed}
use sandboard.Board.Invariant.Plans.{
  propose_plan-Keeps, heal_completed_epics-Keeps, approve_review-Keeps, approve_plan-Keeps,
  propose_split-Keeps,
}
use sandboard.Board.Invariant.Reviews.{
  report_pull_request-Keeps, set_pr_url-Keeps, complete_for_merged_pr_by-Keeps,
  apply_pr_review_feedback_by-Keeps, dispatch_rebase-Keeps, record_rebase_outcome-Keeps,
  notify_main_advanced-Keeps,
}

module _ {P : Board → Type 0} (closed : Closed P) where
  pub run-holds : (c : Call) (b : Board) → P b → P (run c b)
  unfolding run append_agent_log clear_agent_logs
  run-holds (Call.tick now) b h = closed.ticked now b h
  run-holds (Call.append_agent_log id line) b h = closed.noted _ b h
  run-holds (Call.clear_agent_logs id) b h = closed.noted _ b h
  run-holds (Call.create parent title intent dod origin above_line capability) b h =
      (create-Keeps closed parent title intent dod origin above_line capability).at b h
  run-holds (Call.set_proposal id proposal) b h = (set_proposal-Keeps closed id proposal).at b h
  run-holds (Call.materialize_proposal id by origin) b h =
      (materialize_proposal-Keeps closed id by origin).at b h
  run-holds (Call.seed_initial_plan id) b h = (seed_initial_plan-Keeps closed id).at b h
  run-holds (Call.set_blocked_by id blockers) b h = (set_blocked_by-Keeps closed id blockers).at b h
  run-holds (Call.materialize_proposal_on_done id by) b h =
      (materialize_proposal_on_done-Keeps closed id by).at b h
  run-holds (Call.transition id to by reason) b h = (transition-Keeps closed id to by reason).at b h
  run-holds (Call.claim id agent_id model timeout_secs) b h =
      (claim-Keeps closed id agent_id model timeout_secs).at b h
  run-holds (Call.heartbeat id agent_id progress) b h =
      (heartbeat-Keeps closed id agent_id progress).at b h
  run-holds (Call.report id agent_id added removed gates) b h =
      (report-Keeps closed id agent_id added removed gates).at b h
  run-holds (Call.release_with_reason id agent_id reason) b h =
      (release_with_reason-Keeps closed id agent_id reason).at b h
  run-holds (Call.release id agent_id) b h = (release-Keeps closed id agent_id).at b h
  run-holds (Call.escalate id agent_id question options recommended) b h =
      (escalate-Keeps closed id agent_id question options recommended).at b h
  run-holds (Call.record_run_failure id reason max_attempts) b h =
      (record_run_failure-Keeps closed id reason max_attempts).at b h
  run-holds (Call.reopen_for_adoption id agent_id timeout_secs) b h =
      (reopen_for_adoption-Keeps closed id agent_id timeout_secs).at b h
  run-holds Call.sweep_leases b h = (sweep_leases-Keeps closed).at b h
  run-holds (Call.enqueue_dispatch id) b h = (enqueue_dispatch-Keeps closed id).at b h
  run-holds (Call.clear_dispatch id) b h = (clear_dispatch-Keeps closed id).at b h
  run-holds (Call.auto_enqueue_project project_id) b h =
      (auto_enqueue_project-Keeps closed project_id).at b h
  run-holds Call.auto_enqueue_all b h = (auto_enqueue_all-Keeps closed).at b h
  run-holds (Call.set_auto_dispatch id enabled) b h =
      (set_auto_dispatch-Keeps closed id enabled).at b h
  run-holds (Call.steer id text) b h = (steer-Keeps closed id text).at b h
  run-holds (Call.answer_escalation id choice) b h =
      (answer_escalation-Keeps closed id choice).at b h
  run-holds (Call.park id reason) b h = (park-Keeps closed id reason).at b h
  run-holds (Call.unpark id) b h = (unpark-Keeps closed id).at b h
  run-holds (Call.halt id reason) b h = (halt-Keeps closed id reason).at b h
  run-holds (Call.request_changes id note) b h = (request_changes-Keeps closed id note).at b h
  run-holds (Call.cut_scope rounds id reason) b h = (cut_scope-Keeps closed rounds id reason).at b h
  run-holds (Call.unarchive_scope rounds id reason) b h =
      (unarchive_scope-Keeps closed rounds id reason).at b h
  run-holds (Call.create_cockpit_session environment conversation_id) b h =
      (create_cockpit_session-Keeps closed environment conversation_id).at b h
  run-holds (Call.update_cockpit_session environment conversation_id) b h =
      (update_cockpit_session-Keeps closed environment conversation_id).at b h
  run-holds (Call.set_cockpit_sandbox_phase phase detail) b h =
      (set_cockpit_sandbox_phase-Keeps closed phase detail).at b h
  run-holds Call.park_cockpit_session b h = (park_cockpit_session-Keeps closed).at b h
  run-holds Call.resume_cockpit_session b h = (resume_cockpit_session-Keeps closed).at b h
  run-holds Call.stop_cockpit_session b h = (stop_cockpit_session-Keeps closed).at b h
  run-holds (Call.set_environment id sandbox) b h = (set_environment-Keeps closed id sandbox).at b h
  run-holds (Call.set_conversation_id id conversation) b h =
      (set_conversation_id-Keeps closed id conversation).at b h
  run-holds (Call.set_pull_requests id prs) b h = (set_pull_requests-Keeps closed id prs).at b h
  run-holds (Call.clear_run_failures id) b h = (clear_run_failures-Keeps closed id).at b h
  run-holds (Call.update_item id title intent definition_of_done engine project_prompt) b h =
      (update_item-Keeps closed id title intent definition_of_done engine project_prompt).at b h
  run-holds (Call.create_project title intent clone_repo above_line project_prompt) b h =
      (create_project-Keeps closed title intent clone_repo above_line project_prompt).at b h
  run-holds (Call.create_task parent title intent dod blocked_by capability above_line) b h =
      (create_task-Keeps closed parent title intent dod blocked_by capability above_line).at b h
  run-holds (Call.materialize_pending_proposal id) b h =
      (materialize_pending_proposal-Keeps closed id).at b h
  run-holds (Call.propose_plan id summary tasks cancel_keys) b h =
      (propose_plan-Keeps closed id summary tasks cancel_keys).at b h
  run-holds Call.heal_completed_epics b h = (heal_completed_epics-Keeps closed).at b h
  run-holds (Call.approve_review id) b h = (approve_review-Keeps closed id).at b h
  run-holds (Call.approve_plan id) b h = (approve_plan-Keeps closed id).at b h
  run-holds (Call.propose_split is_alphanumeric id agent_id children max_children) b h =
      (propose_split-Keeps closed is_alphanumeric id agent_id children max_children).at b h
  run-holds (Call.report_pull_request id pr) b h = (report_pull_request-Keeps closed id pr).at b h
  run-holds (Call.set_pr_url id url) b h = (set_pr_url-Keeps closed id url).at b h
  run-holds (Call.complete_for_merged_pr_by pr_url pr_number by) b h =
      (complete_for_merged_pr_by-Keeps closed pr_url pr_number by).at b h
  run-holds (Call.apply_pr_review_feedback_by pr_url pr_number review_state by) b h =
      (apply_pr_review_feedback_by-Keeps closed pr_url pr_number review_state by).at b h
  run-holds (Call.dispatch_rebase id) b h = (dispatch_rebase-Keeps closed id).at b h
  run-holds (Call.record_rebase_outcome id outcome) b h =
      (record_rebase_outcome-Keeps closed id outcome).at b h
  run-holds (Call.notify_main_advanced upstream advanced_repo ref_name commit_sha) b h =
      (notify_main_advanced-Keeps closed upstream advanced_repo ref_name commit_sha).at b h

  pub Reach-holds :
      {schema : Schema} {start : ℕ} {b : Board}
      → ((rounds : ℕ) (id : ItemId) (b : Board) → P b → P (delete_item rounds id b).1)
      → P (new_board schema start)
      → Reach schema start b
      → P b
  Reach-holds gone h started = h
  Reach-holds gone h (called c reach) = run-holds c _ (Reach-holds gone h reach)
  Reach-holds gone h (deleted rounds id reach) = gone rounds id _ (Reach-holds gone h reach)
