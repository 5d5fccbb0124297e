-- ===== src/Supervisor/Examples.antt =====
-- src/supervisor.rs: the supervisor's decisions on concrete texts and cards.
use sandboard.Prelude.Text.Parse.{trim_start_matches}
use sandboard.Prelude.Text.Parse.{trim_end_matches}
use sandboard.Prelude.Text.{opt_str_eq}
use sandboard.Prelude.Text.Parse.{parse_unsigned}
use sandboard.Prelude.Text.{split_whitespace}
use sandboard.Prelude.Text.{trim}
use sandboard.Prelude.Text.{lines}
use sandboard.Prelude.Text.{to_lowercase}
use sandboard.Prelude.Text.{contains}
use sandboard.Prelude.Text.Parse.{take_while}
use sandboard.Prelude.Text.Parse.{parse_i32}
use sandboard.Prelude.Text.{strip_prefix}
use sandboard.Prelude.Text.Parse.{split_once}
use sandboard.Prelude.{
  ◌≡◌, refl, ◌↔◌, String, Option, none, some, List, [], ◌∷◌, true, false, length, is_some,
}
use sandboard.Prelude.Text.{show_ℕ}
use sandboard.Prelude.Result.{ok}
use sandboard.Model.State.{State, is_terminal}
use sandboard.Model.Plan.{PlanTaskSpec}
use sandboard.Model.Item.{WorkItem, new_item}
use sandboard.Board.Proposal.{check_proposal}
use sandboard.Supervisor.Runs.{
  is_supervisor_detach, is_infrastructure, adoptable, should_keep_sandbox, card_sandbox_name,
}
use sandboard.Supervisor.Runs.Kept.{adoptable-kept, should_keep_sandbox_iff}
use sandboard.Supervisor.Output.{parse_diffstat, probe_of}
use sandboard.Supervisor.Notes.{clone_target_from_notes}
use sandboard.Supervisor.Sidecar.{RawPlanTask, PlanFile, plan_file_to_specs, specs_from}
use sandboard.Supervisor.Sidecar.Accepted.{plan_file-check_proposal}

interrupted : is_supervisor_detach "agent exited -1: broken pipe" ≡ true
unfolding is_supervisor_detach split_once strip_prefix parse_i32 take_while
interrupted = refl

relay : is_infrastructure "H2 Protocol Error: reset" ≡ true
unfolding is_infrastructure contains to_lowercase
relay = refl

counted : parse_diffstat "3\t1\tsrc/bed.rs\n-\t-\tplot.png\n\n10\t0\tREADME.md\n" ≡ (13, 1)
unfolding parse_diffstat lines trim split_whitespace parse_unsigned strip_prefix
counted = refl

resumed : probe_of "SANDBOARD-AGENT-ALIVE\nSANDBOARD-LOG-LINES= 41\n" ≡ some 42
unfolding probe_of contains lines strip_prefix parse_unsigned trim
resumed = refl

abbrev run : WorkItem
run = record (new_item 7 12 "Dig" "dig a hole") {
  state = State.running;
  environment = some "sb-card-12-a1";
}

adoptable-kept_example : (run ≡ run) × (should_keep_sandbox (some run) "sb-card-12-a1" ≡ true)
unfolding adoptable opt_str_eq
adoptable-kept_example = adoptable-kept run run "sb-card-12-a1" refl

should_keep_sandbox_iff_example :
    (should_keep_sandbox (some run) (card_sandbox_name (show_ℕ run.id) "2") ≡ true)
    ↔ ((is_terminal run.state ≡ false) × (is_some run.environment ≡ true))
should_keep_sandbox_iff_example = should_keep_sandbox_iff run "2"

abbrev decided : List String
decided = "Decision: Clone acme/garden into the sandbox" ∷ []

chosen : clone_target_from_notes decided ≡ some "acme/garden"
unfolding clone_target_from_notes strip_prefix trim split_whitespace contains trim_end_matches
    trim_start_matches
chosen = refl

abbrev raw_task : Option String → RawPlanTask
raw_task key = record {
  key = key;
  title = "Dig";
  intent = "dig a hole";
  dod = none;
  blocked_by_keys = [];
  capability = none;
  repo = none;
}

abbrev plan_file : PlanFile
plan_file = record { summary = none; tasks = raw_task none ∷ raw_task (some " ") ∷ [] }

abbrev plan_specs : List PlanTaskSpec
plan_specs = specs_from 0 plan_file.tasks

plan_file-check_proposal_example :
    (check_proposal (record { summary = "Initial plan"; tasks = plan_specs }) ≡ ok tt)
    × (length plan_specs ≡ length plan_file.tasks)
unfolding plan_file_to_specs
plan_file-check_proposal_example = plan_file-check_proposal plan_file "Initial plan" plan_specs refl
