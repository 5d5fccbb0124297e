-- ===== src/Board/Fields.antt =====
-- src/store.rs: the methods that write single fields of a card.
use sandboard.Prelude.{String, Option, none, some, List, [], ◌∷◌, Bool, ◌==◌, if◌then◌else◌}
use sandboard.Prelude.Text.{format, show_ℕ, is_empty, trim, opt_str_eq}
use sandboard.Prelude.Result.{Result, ok, err}
use sandboard.Model.Plan.{PlanArtifact}
use sandboard.Model.PullRequest.{PullRequest}
use sandboard.Model.Item.{ItemId, WorkItem, is_project}
use sandboard.Board.Feed.{emit}
use sandboard.Board.Transition.{change_card}
use sandboard.Board.Core.{Action, pure, modify, ◌>>=◌, ◌>>◌, attempt}

-- A method that returns at once where the card is missing or `f` refuses, and emits the card otherwise.
unfoldable pub touch : ItemId → (WorkItem → Result Unit WorkItem) → Action String Unit
touch id f = attempt (do it ← change_card tt id (λ _ it. f it); modify (emit it))

unfoldable pub set_environment : ItemId → Option String → Action String Unit
unfolding touch
set_environment id sandbox = touch id (λ it. ok (record it { environment = sandbox }))

unfoldable pub set_conversation_id : ItemId → Option String → Action String Unit
unfolding touch
set_conversation_id id conversation = touch id λ it.
    if opt_str_eq it.conversation_id conversation
    then err tt
    else ok (record it { conversation_id = conversation })

unfoldable pub set_pull_requests : ItemId → List PullRequest → Action String Unit
unfolding touch
set_pull_requests id prs =
    touch id
      λ it. ok (record it { pull_requests = prs; legacy_pull_request = none; legacy_pr_url = none })

unfoldable pub set_blocked_by : ItemId → List ItemId → Action String Unit
unfolding touch
set_blocked_by id blockers = touch id (λ it. ok (record it { blocked_by = blockers }))

unfoldable pub clear_run_failures : ItemId → Action String Unit
unfolding touch
clear_run_failures id =
    touch id (λ it. if it.run_failures == 0 then err tt else ok (record it { run_failures = 0 }))

-- `None` leaves the field, a blank text clears it.
abbrev overwrite : Option String → Option String → Option String
overwrite none old = old
overwrite (some new) old = if is_empty (trim new) then none else some new

-- `None` and a blank text leave the field.
abbrev replace : Option String → String → String
replace none old = old
replace (some new) old = if is_empty (trim new) then old else new

resummarize : String → Option PlanArtifact → Option PlanArtifact
resummarize summary none = none
resummarize summary (some plan) = some (record plan { summary = summary })

-- A new intent of a Project becomes the summary of its legacy plan.
follow_intent : Option String → Bool → Option PlanArtifact → Option PlanArtifact
unfolding resummarize
follow_intent none project plan = plan
follow_intent (some i) project plan =
    if is_empty (trim i) then plan else if project then resummarize (trim i) plan else plan

unfoldable pub update_item :
    ItemId
    → Option String
    → Option String
    → Option String
    → Option String
    → Option String
    → Action String WorkItem
unfolding follow_intent
update_item id title intent definition_of_done engine project_prompt = do
  item ← change_card (format ("no such item #" ∷ show_ℕ id ∷ [])) id λ _ it. ok (record it {
    title = replace title it.title;
    plan = follow_intent intent (is_project it) it.plan;
    intent = replace intent it.intent;
    definition_of_done = overwrite definition_of_done it.definition_of_done;
    engine = overwrite engine it.engine;
    project_prompt =
        if is_project it then overwrite project_prompt it.project_prompt else it.project_prompt;
  })
  modify (emit item)
  pure item
