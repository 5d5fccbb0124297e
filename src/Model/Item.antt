-- ===== src/Model/Item.antt =====
-- src/model.rs: the card. Times are the nanoseconds of `DateTime<Utc>`. `progress` is counted in units
-- of f32::EPSILON (2^-23), so that 1.0 is `full_progress`.
use sandboard.Prelude.{
  ℕ, String, Option, none, some, List, [], ◌∷◌, Bool, false, not, ◌&&◌, ◌||◌, is_some, is_none,
  is_empty, all, keep, ltb,
}
use sandboard.Prelude.Text.{contains, str_eq}
use sandboard.Model.State.{State}
use sandboard.Model.Plan.{RepoConfig, PlanArtifact, TaskProposal, title_is_initial_plan}
use sandboard.Model.PullRequest.{PullRequest, url_str}

abbrev pub ItemId : Type 0
ItemId = ℕ

pub data Origin : Type 0 where
  human planner : Origin
  split : ItemId → Origin
  reflection : Origin

pub record Lease : Type 0 where
  pub agent_id : String
  pub granted_at : ℕ
  pub last_heartbeat : ℕ
  pub expires_at : ℕ

unfoldable pub is_expired : Lease → ℕ → Bool
is_expired l now = ltb l.expires_at now

pub record EscalationOption : Type 0 where
  pub label : String
  pub detail : String

pub record Escalation : Type 0 where
  pub question : String
  pub options : List EscalationOption
  pub recommended : ℕ
  pub blocked_since : ℕ
  pub answer : Option String

pub data GateStatus : Type 0 where
  pending running passed failed : GateStatus

pub record GateRun : Type 0 where
  pub name : String
  pub status : GateStatus
  pub detail : Option String

pub record Note : Type 0 where
  pub at : ℕ
  pub author : String
  pub text : String

-- One entry of a card's history.
pub record Transition : Type 0 where
  pub at : ℕ
  pub source : State
  pub to : State
  pub by : String
  pub reason : Option String

pub record BlockerSummary : Type 0 where
  pub id : ItemId
  pub title : String
  pub state : State

abbrev pub full_progress : ℕ
full_progress = 8388608

pub record WorkItem : Type 0 where
  pub id : ItemId
  pub parent : Option ItemId
  pub level : Option String
  pub title : String
  pub intent : String
  pub definition_of_done : Option String
  pub state : State
  pub origin : Origin
  pub above_line : Bool
  pub blocked_by : List ItemId
  pub blockers : List BlockerSummary
  pub capability : Option String
  pub lease : Option Lease
  pub run_deadline_at : Option ℕ
  pub engine : Option String
  pub model : Option String
  pub resolved_model : Option String
  pub progress : ℕ
  pub escalation : Option Escalation
  pub gates : List GateRun
  pub gate_failures : ℕ
  pub run_failures : ℕ
  pub diff_added : ℕ
  pub diff_removed : ℕ
  pub notes : List Note
  pub project_prompt : Option String
  pub sandbox_profile_id : Option String
  pub auto_dispatch : Bool
  pub last_bounce_reason : Option String
  pub last_conflict_files : List String
  pub release_target : Option String
  pub environment : Option String
  pub conversation_id : Option String
  pub parked : Bool
  pub awaiting_dispatch : Bool
  pub rebase_requested : Bool
  pub pull_requests : List PullRequest
  pub legacy_pull_request : Option PullRequest
  pub legacy_pr_url : Option String
  pub repo : Option RepoConfig
  pub plan : Option PlanArtifact
  pub proposal : Option TaskProposal
  pub created_at : ℕ
  pub entered_state_at : ℕ
  pub history : List Transition

-- `WorkItem::new`, at the time `now`
unfoldable pub new_item : ℕ → ItemId → String → String → WorkItem
new_item now id title intent = record {
  id = id;
  parent = none;
  level = none;
  title = title;
  intent = intent;
  definition_of_done = none;
  state = State.draft;
  origin = Origin.human;
  above_line = false;
  blocked_by = [];
  blockers = [];
  capability = none;
  lease = none;
  run_deadline_at = none;
  engine = none;
  model = none;
  resolved_model = none;
  progress = 0;
  escalation = none;
  gates = [];
  gate_failures = 0;
  run_failures = 0;
  diff_added = 0;
  diff_removed = 0;
  notes = [];
  project_prompt = none;
  sandbox_profile_id = none;
  auto_dispatch = false;
  last_bounce_reason = none;
  last_conflict_files = [];
  release_target = none;
  environment = none;
  conversation_id = none;
  parked = false;
  awaiting_dispatch = false;
  rebase_requested = false;
  pull_requests = [];
  legacy_pull_request = none;
  legacy_pr_url = none;
  repo = none;
  plan = none;
  proposal = none;
  created_at = now;
  entered_state_at = now;
  history = [];
}

-- `level.as_deref() == Some(name)`
unfoldable pub level_is : Option String → String → Bool
level_is none name = false
level_is (some l) name = str_eq l name

unfoldable pub is_project : WorkItem → Bool
is_project it = is_none it.parent && not (level_is it.level "Task")

unfoldable pub unmerged_prs : WorkItem → List PullRequest
unmerged_prs it = keep (λ p. not p.merged && is_some (url_str p)) it.pull_requests

unfoldable pub all_pull_requests_merged : WorkItem → Bool
all_pull_requests_merged it =
    not (is_empty it.pull_requests) && all (λ p. p.merged || is_none (url_str p)) it.pull_requests

-- `iter().find_map(PullRequest::url_str)`
unfoldable pub first_url : List PullRequest → Option String
first_url [] = none
first_url (p ∷ rest) =
    let later = first_url rest in elim (url_str p) [ none ↦ later | some u ↦ some u ]

unfoldable pub pr_url : WorkItem → Option String
pr_url it = elim (first_url (unmerged_prs it)) [
  | none ↦ first_url it.pull_requests
  | some u ↦ some u
]

unfoldable pub is_initial_plan_task : WorkItem → Bool
is_initial_plan_task it =
    title_is_initial_plan it.title
    || elim it.definition_of_done [ none ↦ false | some d ↦ contains d "Plan artifact approved" ]
