-- ===== src/Supervisor/Sidecar.antt =====
-- src/supervisor.rs: the files that an agent leaves beside its work, as serde has decoded them.
pub mod Accepted
use sandboard.Prelude.{
  ℕ, ◌+◌, String, Option, none, some, List, [], ◌∷◌, Bool, false, if◌then◌else◌, is_empty,
}
use sandboard.Prelude.Text
use sandboard.Prelude.Text.{format, show_ℕ, trim}
use sandboard.Prelude.Result.{Result, ok, err}
use sandboard.Model.Plan.{RepoConfig, PlanTaskSpec}
use sandboard.Model.PullRequest.{PullRequest, PullRequestEnd, new_end}
use sandboard.Model.Item.{EscalationOption}

pub data RawEscalationOption : Type 0 where
  fields : String → Option String → RawEscalationOption
  text : String → RawEscalationOption

unwrap_or : Option String → String → String
unwrap_or none default = default
unwrap_or (some s) _ = s

unfoldable pub into_escalation_option : RawEscalationOption → EscalationOption
unfolding unwrap_or
into_escalation_option (RawEscalationOption.fields label detail) = record {
  label = label;
  detail = unwrap_or detail label;
}
into_escalation_option (RawEscalationOption.text s) = record { label = s; detail = s }

pub record ReportEnd : Type 0 where
  pub repo : Option String
  pub git_ref : Option String

pub record ReportFile : Type 0 where
  pub added : ℕ
  pub removed : ℕ
  pub gates : List String
  pub url : Option String
  pub base : Option ReportEnd
  pub head : Option ReportEnd

end_of : Option String → String → Option PullRequestEnd
end_of none git_ref = none
end_of (some repo) git_ref =
    if Text.is_empty (trim repo) then none else some (new_end (trim repo) git_ref)

unfoldable pub report_end_to_model : ReportEnd → Option PullRequestEnd
unfolding end_of unwrap_or
report_end_to_model end = end_of end.repo (trim (unwrap_or end.git_ref "main"))

and_then : Option ReportEnd → Option PullRequestEnd
unfolding report_end_to_model
and_then none = none
and_then (some end) = report_end_to_model end

with_url : ReportFile → Option String → Option PullRequest
unfolding and_then
with_url rep none = none
with_url rep (some url) =
    if Text.is_empty (trim url)
    then none
    else some (record {
      url = trim url;
      base = and_then rep.base;
      head = and_then rep.head;
      merged = false;
      reported_at = none;
    })

unfoldable pub report_to_pull_request : ReportFile → Option PullRequest
unfolding with_url
report_to_pull_request rep = with_url rep rep.url

pub record RawPlanTask : Type 0 where
  pub key : Option String
  pub title : String
  pub intent : String
  pub dod : Option String
  pub blocked_by_keys : List String
  pub capability : Option String
  pub repo : Option RepoConfig

pub record PlanFile : Type 0 where
  pub summary : Option String
  pub tasks : List RawPlanTask

unfoldable pub key_or : Option String → String → String
key_or none default = default
key_or (some k) default = if Text.is_empty (trim k) then default else trim k

-- `filter(|s| !s.trim().is_empty()).unwrap_or(default)`
unfoldable pub text_or : Option String → String → String
text_or none default = default
text_or (some s) default = if Text.is_empty (trim s) then default else s

unfoldable pub spec_of : ℕ → RawPlanTask → PlanTaskSpec
unfolding key_or text_or
spec_of idx t = record {
  key = key_or t.key (format ("t" ∷ show_ℕ (idx + 1) ∷ []));
  title = t.title;
  intent = t.intent;
  definition_of_done = text_or t.dod (format (t.title ∷ " completed." ∷ []));
  blocked_by_keys = t.blocked_by_keys;
  capability = t.capability;
  repo = t.repo;
  item_id = none;
}

unfoldable pub specs_from : ℕ → List RawPlanTask → List PlanTaskSpec
unfolding spec_of
specs_from idx [] = []
specs_from idx (t ∷ rest) = spec_of idx t ∷ specs_from (idx + 1) rest

unfoldable pub plan_file_to_specs : PlanFile → Result String (String × List PlanTaskSpec)
unfolding specs_from text_or
plan_file_to_specs plan =
    if is_empty plan.tasks
    then err "plan.json has no tasks"
    else ok (text_or plan.summary "Initial plan", specs_from 0 plan.tasks)
