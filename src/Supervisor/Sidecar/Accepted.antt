-- ===== src/Supervisor/Sidecar/Accepted.antt =====
-- src/supervisor.rs and src/store.rs: a plan file that the supervisor reads is a proposal that the board
-- takes.
use Prim.Native.String.{◌++◌ as ◌+++◌}
use sandboard.Prelude.{
  ℕ, ◌+◌, ◌≡◌, refl, ◌∙◌, String, Option, none, some, List, [], ◌∷◌, false, arith, is_empty,
  if◌then◌else◌, length,
}
use sandboard.Prelude.Text
use sandboard.Prelude.Text.{format, show_ℕ, trim, is_whitespace}
use sandboard.Prelude.Text.Blank.{is_blank, trim_blank, append-is_blank, trim-is_blank}
use sandboard.Prelude.Result.{Result, ok, err}
use sandboard.Model.Plan.{PlanTaskSpec}
use sandboard.Board.Proposal.{check_proposal, check_tasks}
use sandboard.Supervisor.Sidecar.{
  RawPlanTask, PlanFile, key_or, text_or, spec_of, specs_from, plan_file_to_specs,
}

key_or_filled :
    (o : Option String) (default : String)
    → is_blank default ≡ false
    → Text.is_empty (trim (key_or o default)) ≡ false
unfolding key_or
key_or_filled none default h = trim_blank default ∙ h
key_or_filled (some k) default h =
    let inner = trim_blank (trim k) in
    let same = trim-is_blank k in
    let outer = trim_blank k in let whole = trim_blank default in ground arith

text_or_filled :
    (o : Option String) (default : String)
    → is_blank default ≡ false
    → Text.is_empty (trim (text_or o default)) ≡ false
unfolding text_or
text_or_filled none default h = trim_blank default ∙ h
text_or_filled (some s) default h = let whole = trim_blank default in ground arith

numbered : (n : ℕ) → is_blank (format ("t" ∷ show_ℕ n ∷ [])) ≡ false
unfolding format is_blank is_whitespace
numbered n = append-is_blank "t" (show_ℕ n +++ "")

completed : (title : String) → is_blank (format (title ∷ " completed." ∷ [])) ≡ false
unfolding format is_blank is_whitespace
completed title = let parts = append-is_blank title (" completed." +++ "") in ground arith

specs_from_checked :
    (idx : ℕ) (tasks : List RawPlanTask) → check_tasks (specs_from idx tasks) ≡ ok tt
unfolding check_tasks specs_from spec_of
specs_from_checked idx [] = refl
specs_from_checked idx (t ∷ rest) =
    let key = key_or_filled t.key _ (numbered (idx + 1)) in
    let dod = text_or_filled t.dod _ (completed t.title) in
    let later = specs_from_checked (idx + 1) rest in ground arith

length-specs_from :
    (idx : ℕ) (tasks : List RawPlanTask) → length (specs_from idx tasks) ≡ length tasks
unfolding specs_from
length-specs_from idx [] = refl
length-specs_from idx (t ∷ rest) = let later = length-specs_from (idx + 1) rest in ground arith

rows_checked :
    (tasks : List RawPlanTask) (shown summary : String) (specs : List PlanTaskSpec)
    → ◌≡◌ {A = Result String (String × List PlanTaskSpec)}
        (if is_empty tasks then err "plan.json has no tasks" else ok (shown, specs_from 0 tasks))
        (ok (summary, specs))
    → (check_proposal (record { summary = summary; tasks = specs }) ≡ ok tt)
      × (length specs ≡ length tasks)
unfolding check_proposal specs_from
rows_checked [] shown summary specs h = cc
rows_checked (t ∷ rest) shown summary specs h =
    let same : specs_from 0 (t ∷ rest) ≡ specs = cc in
    rw (← same) (specs_from_checked 0 (t ∷ rest), length-specs_from 0 (t ∷ rest))

-- A plan file that is read as specs becomes a proposal that `set_proposal` does not refuse for its
-- rows, whatever keys and definitions of done the agent left out; it has a row for each task.
pub plan_file-check_proposal :
    (plan : PlanFile) (summary : String) (specs : List PlanTaskSpec)
    → plan_file_to_specs plan ≡ ok (summary, specs)
    → (check_proposal (record { summary = summary; tasks = specs }) ≡ ok tt)
      × (length specs ≡ length plan.tasks)
unfolding plan_file_to_specs check_proposal
plan_file-check_proposal plan summary specs h =
    rows_checked plan.tasks (text_or plan.summary "Initial plan") summary specs h
