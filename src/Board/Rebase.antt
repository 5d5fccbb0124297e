-- ===== src/Board/Rebase.antt =====
-- src/store.rs: cards in Review after the default branch has advanced: the retry of the mergeable check
-- and its outcome.
pub mod Outcome
use sandboard.Prelude.{
  ℕ, String, Option, none, some, List, [], ◌∷◌, ◌++◌, Bool, true, false, ◌&&◌, ◌||◌, not, ◌==◌,
  is_some, is_none, is_empty, any, keep, map, if◌then◌else◌,
}
use sandboard.Prelude.Text.{format, show_ℕ, trim, str_eq, join}
use sandboard.Prelude.Result.{Result, ok, err}
use sandboard.Map
use sandboard.Map.{nat_key}
use sandboard.Machine.{TransitionError, debug_state, error_text}
use sandboard.Model.State.{State, state_eq}
use sandboard.Model.Item.{ItemId, WorkItem, EscalationOption, Note, pr_url}
use sandboard.Board.State.{BoardState}
use sandboard.Board.State.Indexes.{is_id}
use sandboard.Board.Tree.{populate_blockers}
use sandboard.Board.Feed.{emit, story}
use sandboard.Board.Transition.{transition_card, change_card}
use sandboard.Board.Dispatch.{sort_by_entry}
use sandboard.Board.Worker.{escalate}
use sandboard.Board.Core.{
  Board, Action, pure, raise, lift, gets, modify, ◌>>=◌, ◌>>◌, map_error, attempt,
}

pub data RebaseOutcome : Type 0 where
  clean : RebaseOutcome
  conflict : List String → Option String → RebaseOutcome

unfoldable pub conflict_bounce_note : List String → String
conflict_bounce_note conflicting_files =
    let files =
      if is_empty conflicting_files
      then "GitHub PR mergeable is CONFLICTING"
      else format ("conflicting files: " ∷ join ", " conflicting_files ∷ []) in
    format (
      "BINDING: main advanced — " ∷ files
      ∷ ". do-not-re-report-while-CONFLICTING; rebase onto upstream base before finishing." ∷ [])

in_review_with_pr : WorkItem → Bool
in_review_with_pr i = state_eq i.state State.review && is_some (pr_url i)

family_of : WorkItem → ItemId
family_of item = elim item.parent [ none ↦ item.id | some p ↦ p ]

unfoldable pub identify_behind_sibling_prs : Board → ItemId → List WorkItem
unfolding in_review_with_pr family_of
identify_behind_sibling_prs b near_id = elim (Map.get b.state.items near_id) [
  | none ↦ []
  | some item ↦ sort_by_entry (
      keep (λ i. is_id i.parent (family_of item) && not (i.id == near_id) && in_review_with_pr i)
        (Map.values b.state.items))
]

unfoldable pub identify_all_behind_sibling_prs : Board → List WorkItem
unfolding in_review_with_pr
identify_all_behind_sibling_prs b =
    sort_by_entry (keep in_review_with_pr (Map.values b.state.items))

-- A card that asks for a retry already is left as it is.
unfoldable pub request_retry : ItemId → WorkItem → Result String WorkItem
request_retry id it =
    if not (state_eq it.state State.review)
    then err (
        format (
          "only Review cards can queue mergeable retry, #"
          ∷ show_ℕ id
          ∷ " is in "
          ∷ debug_state it.state
          ∷ []))
    else if is_none (pr_url it)
    then err (format ("card #" ∷ show_ℕ id ∷ " has no pull_request.url for mergeable check" ∷ []))
    else ok (
        if it.rebase_requested
        then it
        else record it { rebase_requested = true; awaiting_dispatch = true })

unfoldable pub has_request : Option WorkItem → Bool
has_request none = false
has_request (some it) = it.rebase_requested

unfoldable pub dispatch_rebase : ItemId → Action String WorkItem
unfolding request_retry has_request
dispatch_rebase id = do
  again ← gets (λ b. has_request (Map.get b.state.items id))
  item ← change_card (format ("no such item " ∷ show_ℕ id ∷ [])) id λ _ it. request_retry id it
  full ← gets (λ b. populate_blockers b.state item)
  if again then pure full else (do
    modify (emit full)
    modify (
        story id
          (format (full.title ∷ ": waiting on GitHub mergeable — catch-up will retry." ∷ [])))
    pure full)

unfoldable pub list_awaiting_rebase : Board → List WorkItem
list_awaiting_rebase b = sort_by_entry (
    keep
      (λ i.
        state_eq i.state State.review
        && (i.rebase_requested || i.awaiting_dispatch)
        && not i.parked)
      (Map.values b.state.items))

has_file : List String → String → Bool
has_file files f = any (λ g. str_eq g f) files

-- The files that were in conflict before, too.
unfoldable pub overlap : List String → List String → List String
unfolding has_file
overlap files previous = keep (has_file previous) files

base_reason : Option String → String
base_reason none = "GitHub PR mergeable is CONFLICTING"
base_reason (some r) = r

unfoldable pub repeated_reason : Option String → List String → String
unfolding base_reason
repeated_reason reason files = format (
    base_reason reason
    ∷ ": decomposition failure: repeated conflict on overlapping files: "
    ∷ join ", " files
    ∷ [])

unfoldable pub bounce_reason : Option String → List String → String
unfolding base_reason
bounce_reason reason files =
    if is_empty files
    then base_reason reason
    else format (base_reason reason ∷ ": conflicting files: " ∷ join ", " files ∷ [])

unfoldable pub note_conflict : ItemId → String → List String → Action String Unit
note_conflict id reason files = attempt {E = Unit} (
    change_card tt id (λ b it. ok (record it {
      last_bounce_reason = some reason;
      last_conflict_files = files;
      notes =
          it.notes
          ++ record { at = b.clock; author = "rebase"; text = conflict_bounce_note files } ∷ [];
    })))

rebase_options : List EscalationOption
rebase_options =
    record {
      label = "Re-split tasks to isolate overlapping files";
      detail =
          "Return card to Shaping/Backlog or re-split the task so overlapping file boundaries are separated.";
    }
    ∷ record {
      label = "Manually resolve conflict and approve";
      detail = "Manually rebase or merge the PR branch onto main and approve.";
    }
    ∷ record {
      label = "Retire card";
      detail = "Cut scope and retire this card if the conflict cannot be resolved.";
    }
    ∷ []

unfoldable pub escalate_conflict :
    ItemId → List String → List String → Option String → Action String WorkItem
unfolding rebase_options
escalate_conflict id files previous reason = do
  note_conflict id (repeated_reason reason (overlap files previous)) files
  escalate id "rebase"
      (format (
        "Decomposition failure: repeated rebase conflict on overlapping files ("
        ∷ join ", " (overlap files previous)
        ∷ ") for card #"
        ∷ show_ℕ id
        ∷ []))
      rebase_options 0

refusal_text : TransitionError → String
refusal_text e = format ("failed transition to Backlog on rebase conflict: " ∷ error_text e ∷ [])

unfoldable pub bounce : ItemId → String → List String → Option String → Action String WorkItem
unfolding refusal_text
bounce id title files reason = do
  note_conflict id (bounce_reason reason files) files
  map_error refusal_text
      (transition_card id State.backlog "rebase" (some (bounce_reason reason files)))
  item ←
      change_card (format ("no such item #" ∷ show_ℕ id ∷ [])) id
        λ _ it. ok (record it { rebase_requested = false; awaiting_dispatch = false })
  full ← gets (λ b. populate_blockers b.state item)
  modify (emit full)
  modify (
      story id (
        format (
          title
          ∷ ": GitHub CONFLICTING after main advance — returned to Backlog ("
          ∷ bounce_reason reason files
          ∷ ")."
          ∷ [])))
  pure full

unfoldable pub settle_clean : ItemId → Action String WorkItem
settle_clean id = do
  item ← change_card (format ("no such item #" ∷ show_ℕ id ∷ [])) id λ _ it. ok (record it {
    rebase_requested = false;
    awaiting_dispatch = false;
    last_bounce_reason = none;
    last_conflict_files = [];
  })
  full ← gets (λ b. populate_blockers b.state item)
  modify (emit full)
  pure full

unfoldable pub settle : ItemId → WorkItem → RebaseOutcome → Action String WorkItem
settle id it RebaseOutcome.clean = settle_clean id
settle id it (RebaseOutcome.conflict conflicting_files reason) =
    let files = map trim conflicting_files in
    if is_empty (overlap files it.last_conflict_files)
    then bounce id it.title files reason
    else escalate_conflict id files it.last_conflict_files reason

unfoldable pub need_review : ItemId → Option WorkItem → Result String WorkItem
need_review id none = err (format ("no such item #" ∷ show_ℕ id ∷ []))
need_review id (some it) =
    if state_eq it.state State.review
    then ok it
    else err (
        format (
          "only Review cards can record rebase outcome, #"
          ∷ show_ℕ id
          ∷ " is in "
          ∷ debug_state it.state
          ∷ []))

unfoldable pub record_rebase_outcome : ItemId → RebaseOutcome → Action String WorkItem
unfolding need_review
record_rebase_outcome id outcome = do
  found ← gets (λ b. need_review id (Map.get b.state.items id))
  it ← lift found
  settle id it outcome

unfoldable pub complete_rebase_clean : ItemId → Action String WorkItem
complete_rebase_clean id = record_rebase_outcome id RebaseOutcome.clean

unfoldable pub complete_rebase_conflict :
    ItemId → List String → Option String → Action String WorkItem
complete_rebase_conflict id conflicting_files reason =
    record_rebase_outcome id (RebaseOutcome.conflict conflicting_files reason)
