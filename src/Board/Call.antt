-- ===== src/Board/Call.antt =====
-- src/store.rs: the calls that the rest of the program makes of the board, each with its arguments.
-- `delete_item` stands apart, since it takes cards away.
use Prim.Native.Char.{Char}
use sandboard.Prelude.{ℕ, String, Option, List, Bool}
use sandboard.Prelude.Int.{ℤ}
use sandboard.Model.State.{State}
use sandboard.Model.Plan.{TaskProposal, PlanTaskSpec}
use sandboard.Model.PullRequest.{PullRequest}
use sandboard.Model.Cockpit.{CockpitSandboxPhase}
use sandboard.Model.Item.{ItemId, Origin, EscalationOption}
use sandboard.Board.Split.{SplitChildSpec}
use sandboard.Board.Rebase.{RebaseOutcome}

pub data Call : Type 0 where
  -- Time passes, forwards or, when the clock is set, backwards.
  tick : ℕ → Call
  append_agent_log : ItemId → String → Call
  clear_agent_logs : ItemId → Call
  create : Option ItemId → String → String → Option String → Origin → Bool → Option String → Call
  set_proposal : ItemId → TaskProposal → Call
  materialize_proposal : ItemId → String → Origin → Call
  seed_initial_plan : ItemId → Call
  set_blocked_by : ItemId → List ItemId → Call
  materialize_proposal_on_done : ItemId → String → Call
  transition : ItemId → State → String → Option String → Call
  claim : ItemId → String → Option String → ℤ → Call
  heartbeat : ItemId → String → ℤ → Call
  report : ItemId → String → ℕ → ℕ → List String → Call
  release_with_reason : ItemId → String → Option String → Call
  release : ItemId → String → Call
  escalate : ItemId → String → String → List EscalationOption → ℕ → Call
  record_run_failure : ItemId → String → ℕ → Call
  reopen_for_adoption : ItemId → String → ℤ → Call
  sweep_leases : Call
  enqueue_dispatch : ItemId → Call
  clear_dispatch : ItemId → Call
  auto_enqueue_project : ItemId → Call
  auto_enqueue_all : Call
  set_auto_dispatch : ItemId → Bool → Call
  steer : ItemId → String → Call
  answer_escalation : ItemId → String → Call
  park : ItemId → Option String → Call
  unpark : ItemId → Call
  halt : ItemId → Option String → Call
  request_changes : ItemId → String → Call
  cut_scope : ℕ → ItemId → Option String → Call
  unarchive_scope : ℕ → ItemId → Option String → Call
  create_cockpit_session : Option String → Option String → Call
  update_cockpit_session : Option String → Option String → Call
  set_cockpit_sandbox_phase : CockpitSandboxPhase → Option String → Call
  park_cockpit_session : Call
  resume_cockpit_session : Call
  stop_cockpit_session : Call
  set_environment : ItemId → Option String → Call
  set_conversation_id : ItemId → Option String → Call
  set_pull_requests : ItemId → List PullRequest → Call
  clear_run_failures : ItemId → Call
  update_item :
      ItemId → Option String → Option String → Option String → Option String → Option String → Call
  create_project : String → String → String → Bool → Option String → Call
  create_task : ItemId → String → String → String → List ItemId → Option String → Bool → Call
  materialize_pending_proposal : ItemId → Call
  propose_plan : ItemId → String → List PlanTaskSpec → List String → Call
  heal_completed_epics : Call
  approve_review : ItemId → Call
  approve_plan : ItemId → Call
  propose_split : (Char → Bool) → ItemId → String → List SplitChildSpec → ℕ → Call
  report_pull_request : ItemId → PullRequest → Call
  set_pr_url : ItemId → Option String → Call
  complete_for_merged_pr_by : String → Option ℕ → String → Call
  apply_pr_review_feedback_by : String → Option ℕ → String → String → Call
  dispatch_rebase : ItemId → Call
  record_rebase_outcome : ItemId → RebaseOutcome → Call
  notify_main_advanced : String → String → String → Option String → Call
