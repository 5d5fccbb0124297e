-- ===== src/Board/Merge.antt =====
-- src/store.rs: the pull requests that a card lists: reported by an agent, merged on GitHub, reviewed
-- there.
pub mod Listed
pub mod Complete
use Prim.Native.Char.{code}
use sandboard.Prelude.{
  ℕ, String, Option, none, some, List, [], ◌∷◌, ◌++◌, Bool, true, false, ◌&&◌, ◌||◌, not, is_some,
  is_none, any, length, find_first, ◌==◌, if◌then◌else◌,
}
use sandboard.Prelude.Text.{format, show_ℕ, trim, is_empty, str_eq, to_lowercase}
use sandboard.Prelude.Text.Parse.{trim_end_matches, to_ascii_uppercase}
use sandboard.Prelude.Result.{Result, ok, err}
use sandboard.Map
use sandboard.Map.{nat_key}
use sandboard.Machine.{TransitionError}
use sandboard.Model.State.{State, state_eq, is_terminal}
use sandboard.Model.PullRequest.{PullRequest, PullRequestEnd, url_str, from_url}
use sandboard.Model.Item.{ItemId, WorkItem, Note, unmerged_prs, all_pull_requests_merged}
use sandboard.Board.Feed.{emit, story}
use sandboard.Board.Transition.{change_card, get_card}
use sandboard.Board.Fields.{set_pull_requests}
use sandboard.Board.Moves.{transition}
use sandboard.Board.Core.{Board, Action, pure, lift, gets, modify, ◌>>=◌, ◌>>◌, attempt}

unfoldable pub normalize_pr_url : String → String
normalize_pr_url url = to_lowercase (trim_end_matches (λ c. code c == b'/') (trim url))

unfoldable pub has_url : String → Option String → Bool
unfolding normalize_pr_url
has_url needle none = false
has_url needle (some u) = str_eq (normalize_pr_url u) needle

unfoldable pub lists_url : String → PullRequest → Bool
unfolding has_url
lists_url needle p = has_url needle (url_str p)

unfoldable pub item_lists_pr : WorkItem → String → Bool
unfolding lists_url
item_lists_pr item needle = any (λ p. lists_url needle p) item.pull_requests

unfoldable pub mark_merged : String → List PullRequest → List PullRequest
mark_merged needle [] = []
mark_merged needle (p ∷ rest) =
    (if lists_url needle p then record p { merged = true } else p) ∷ mark_merged needle rest

unfoldable pub mark_listed_pr_merged : WorkItem → String → WorkItem
unfolding mark_merged
mark_listed_pr_merged item needle = record item {
  pull_requests = mark_merged needle item.pull_requests;
}

abbrev or_end : Option PullRequestEnd → Option PullRequestEnd → Option PullRequestEnd
or_end none old = old
or_end (some new) old = some new

-- A report on a pull request that is listed already: its ends are updated, and nothing else.
unfoldable pub merge_report : PullRequest → PullRequest → PullRequest
merge_report pr existing = record existing {
  base = or_end pr.base existing.base;
  head = or_end pr.head existing.head;
  url = if is_empty (trim existing.url) then pr.url else existing.url;
}

-- The first entry with the URL is updated; without one the report is appended.
unfoldable pub add_report : String → PullRequest → List PullRequest → List PullRequest
unfolding merge_report
add_report needle pr [] = pr ∷ []
add_report needle pr (p ∷ rest) =
    let later = add_report needle pr rest in
    if lists_url needle p then merge_report pr p ∷ rest else p ∷ later

unfoldable pub stamp : ℕ → PullRequest → PullRequest
stamp now pr = if is_none pr.reported_at then record pr { reported_at = some now } else pr

unfoldable pub need_url : ItemId → Option String → Result String String
need_url id none = err (format ("card #" ∷ show_ℕ id ∷ " report_pull_request needs a PR url" ∷ []))
need_url id (some url) = ok url

unfoldable pub report_pull_request : ItemId → PullRequest → Action String WorkItem
unfolding need_url stamp add_report
report_pull_request id pr = do
  url ← lift (need_url id (url_str pr))
  item ← change_card (format ("no such item #" ∷ show_ℕ id ∷ [])) id λ b it. ok (record it {
    pull_requests = add_report (normalize_pr_url url) (stamp b.clock pr) it.pull_requests;
    legacy_pull_request = none;
    legacy_pr_url = none;
  })
  modify (emit item)
  modify (
      story id (
        format (
          item.title
          ∷ ": recorded PR "
          ∷ url
          ∷ " ("
          ∷ show_ℕ (length item.pull_requests)
          ∷ ")"
          ∷ [])))
  pure item

with_first_url : String → List PullRequest → List PullRequest
with_first_url u [] = from_url u ∷ []
with_first_url u (p ∷ rest) = record p { url = u } ∷ rest

unfoldable pub with_url : Option String → List PullRequest → List PullRequest
unfolding with_first_url
with_url none prs = []
with_url (some u) prs = if is_empty (trim u) then [] else with_first_url (trim u) prs

listed : Option WorkItem → List PullRequest
listed none = []
listed (some it) = it.pull_requests

unfoldable pub set_pr_url : ItemId → Option String → Action String Unit
unfolding with_url listed
set_pr_url id url = do
  next ← gets (λ b. with_url url (listed (get_card b id)))
  set_pull_requests id next

unfoldable pub in_review_lane : State → Bool
in_review_lane st = state_eq st State.review || state_eq st State.needs_human

unfoldable pub id_of : Option WorkItem → Option ItemId
id_of none = none
id_of (some it) = some it.id

unfoldable pub actor_or : String → String → String
actor_or by default = if is_empty (trim by) then default else trim by

pub numbered : String → Option ℕ → String
numbered text none = text
numbered text (some n) = format (text ∷ " (#" ∷ show_ℕ n ∷ ")" ∷ [])

count_unmerged : Option WorkItem → ℕ
count_unmerged none = 0
count_unmerged (some it) = length (unmerged_prs it)

unfoldable pub tell_remaining : ItemId → String → Action Unit (Option ItemId)
unfolding count_unmerged
tell_remaining id title = do
  remain ← gets (λ b. count_unmerged (get_card b id))
  modify (
      story id (
        format (
          title
          ∷ " — PR merged; "
          ∷ show_ℕ remain
          ∷ " still open. Card stays in Review until all listed PRs merge."
          ∷ [])))
  pure none

-- The move to Done; a refusal is logged.
unfoldable pub finish_merged : ItemId → String → Option ℕ → Action TransitionError ItemId
unfolding numbered
finish_merged id by pr_number = do
  item ← transition id State.done by (some (numbered "PR merged" pr_number))
  modify (story id (format (item.title ∷ " — all listed PRs merged; card Done." ∷ [])))
  pure id

-- `match … { Ok(…) => Some(id), Err(…) => None }`
or_none : Result TransitionError ItemId → Option ItemId
or_none (ok id) = some id
or_none (err e) = none

unfoldable pub catch_refusal : Action TransitionError ItemId → Action Unit (Option ItemId)
unfolding or_none
catch_refusal m b = let (r, after) = m b in (ok (or_none r), after)

unfoldable pub after_mark : ItemId → String → Option ℕ → WorkItem → Action Unit (Option ItemId)
unfolding tell_remaining
after_mark id by pr_number item =
    if not (all_pull_requests_merged item)
    then tell_remaining id item.title
    else if in_review_lane item.state
    then catch_refusal (finish_merged id (actor_or by "github-webhook") pr_number)
    else pure none

-- `?` on an Option: the method returns `None`, after what was written before.
unfoldable pub complete_found :
    String → Option ℕ → String → Option ItemId → Action Unit (Option ItemId)
complete_found needle pr_number by none = pure none
complete_found needle pr_number by (some id) = do
  item ← change_card tt id λ _ it. ok (mark_listed_pr_merged it needle)
  modify (emit item)
  after_mark id by pr_number item

unfoldable pub open_with : String → Board → Option ItemId
open_with needle b = id_of (
    find_first (λ i. not (is_terminal i.state) && item_lists_pr i needle)
      (Map.values b.state.items))

unfoldable pub complete_for_merged_pr_by : String → Option ℕ → String → Action Unit (Option ItemId)
unfolding complete_found
complete_for_merged_pr_by pr_url pr_number by =
    let needle = normalize_pr_url pr_url in
    if is_empty needle
    then pure none
    else (do found ← gets (λ b. open_with needle b); complete_found needle pr_number by found)

unfoldable pub is_actionable_pr_review_state : String → Bool
is_actionable_pr_review_state state =
    let s = to_ascii_uppercase (trim state) in
    str_eq s "CHANGES_REQUESTED" || str_eq s "COMMENT" || str_eq s "COMMENTED"

unfoldable pub pr_review_feedback_steer_note : String → Option ℕ → String
unfolding numbered
pr_review_feedback_steer_note pr_url pr_number = format (
    "There is PR review feedback on "
    ∷ numbered pr_url pr_number
    ∷ ". Inspect it with gh (e.g. `gh pr view` / reviews); figure out the rest from the review itself."
    ∷ [])

unfoldable pub takes_feedback : State → Bool
takes_feedback st =
    state_eq st State.review
    || state_eq st State.needs_human
    || state_eq st State.claimed
    || state_eq st State.running

unfoldable pub requeue_reviewed :
    ItemId → String → String → Option ℕ → Action TransitionError ItemId
unfolding numbered
requeue_reviewed id by note pr_number = do
  item ← transition id State.backlog by (some (numbered "PR review feedback" pr_number))
  modify (emit item)
  modify (story id (format (item.title ∷ ": PR review feedback — Backlog (" ∷ note ∷ ")" ∷ [])))
  pure id

unfoldable pub feedback_found :
    String → String → Option ℕ → Option ItemId → Action Unit (Option ItemId)
unfolding requeue_reviewed
feedback_found note by pr_number none = pure none
feedback_found note by pr_number (some id) = do
  change_card tt id λ b it. ok (record it {
    notes = it.notes ++ record { at = b.clock; author = by; text = note } ∷ [];
    run_failures = 0;
    escalation = none;
    proposal = none;
  })
  catch_refusal (requeue_reviewed id by note pr_number)

unfoldable pub apply_pr_review_feedback_by :
    String → Option ℕ → String → String → Action Unit (Option ItemId)
unfolding feedback_found
apply_pr_review_feedback_by pr_url pr_number review_state by =
    let needle = normalize_pr_url pr_url in
    if not (is_actionable_pr_review_state review_state) || is_empty needle then pure none else (do
      found ← gets λ b. id_of (
          find_first (λ i. takes_feedback i.state && item_lists_pr i needle)
            (Map.values b.state.items))
      feedback_found (pr_review_feedback_steer_note (trim pr_url) pr_number)
          (actor_or by "github-review") pr_number found)
