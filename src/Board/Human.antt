-- ===== src/Board/Human.antt =====
-- src/store.rs: the verbs of a human on one card.
pub mod Halt
use sandboard.Prelude.{
  ℕ, String, Option, none, some, List, [], ◌∷◌, ◌++◌, Bool, true, false, ◌&&◌, ◌||◌, not, is_some,
  is_none, if◌then◌else◌,
}
use sandboard.Prelude.Text.{format, is_empty, trim, contains, to_lowercase}
use sandboard.Prelude.Result.{Result, ok, err}
use sandboard.Map
use sandboard.Map.{nat_key}
use sandboard.Model.State.{State, state_eq}
use sandboard.Model.Item.{ItemId, WorkItem, Note}
use sandboard.Board.Feed.{emit, story}
use sandboard.Board.Transition.{change_card}
use sandboard.Board.Moves.{transition_str, spawn_delete, environment_of}
use sandboard.Board.Dispatch.{enqueue_dispatch}
use sandboard.Board.Core.{Action, pure, gets, modify, ◌>>=◌, ◌>>◌, attempt}

unfoldable pub human_note : ℕ → List String → Note
human_note now text = record { at = now; author = "human"; text = format text }

unfoldable pub steer : ItemId → String → Action String WorkItem
unfolding human_note
steer id text = do
  item ← change_card "no such item" id λ b it. ok (record it {
    notes = it.notes ++ human_note b.clock (text ∷ []) ∷ [];
    run_failures = 0;
    escalation = none;
  })
  modify (emit item)
  pure item

-- A promise that the host will act, with no link that shows that it did.
unfoldable pub decision_defers_host_prerequisite : String → Bool
decision_defers_host_prerequisite choice =
    let c = to_lowercase choice in
    let host_runs =
      contains c "host runs"
      || contains c "finish host"
      || contains c "on the host board"
      || contains c "on the host:" in
    let reclaim_to_document =
      (contains c "re-claim" || contains c "reclaim")
      && (contains c "document" || contains c "to document") in
    if contains c "pr_url=" then false else host_runs || contains c "host" && reclaim_to_document

abbrev pub deferral : String
deferral =
    "Decision defers a host-side prerequisite — parked until Proof facts are pasted, then unpark"

unfoldable pub answered : ℕ → String → WorkItem → Result String WorkItem
unfolding human_note
answered now choice it =
    if is_none it.escalation
    then err "that item is not waiting on anyone"
    else ok (record it {
      escalation = none;
      run_failures = 0;
      last_conflict_files = [];
      notes = it.notes ++ human_note now ("Decision: " ∷ choice ∷ []) ∷ [];
    })

unfoldable pub park_deferred : ItemId → String → Action String WorkItem
unfolding human_note
park_deferred id title = do
  item ← change_card "no such item" id λ b it. ok (record it {
    parked = true;
    awaiting_dispatch = false;
    notes = it.notes ++ human_note b.clock ("Parked: " ∷ deferral ∷ []) ∷ [];
  })
  modify (emit item)
  modify
      (story id (format (title ∷ ": parked after host-deferred answer — " ∷ deferral ∷ "." ∷ [])))
  pure item

unfoldable pub answer_escalation : ItemId → String → Action String WorkItem
unfolding answered park_deferred
answer_escalation id choice = do
  asked ← change_card "no such item" id λ b it. answered b.clock choice it
  item ← transition_str id State.backlog "human" (some (format ("answered: " ∷ choice ∷ [])))
  modify (story id (format (asked.title ∷ ": unblocked — " ∷ choice ∷ [])))
  if decision_defers_host_prerequisite choice then park_deferred id asked.title else pure item

unfoldable pub not_blank : Option String → Option String
not_blank none = none
not_blank (some r) = if is_empty (trim r) then none else some r

unfoldable pub park_note : ℕ → Option String → List Note → List Note
unfolding human_note
park_note now none notes = notes
park_note now (some r) notes = notes ++ human_note now ("Parked: " ∷ r ∷ []) ∷ []

abbrev or_text : Option String → String → String
or_text none text = text
or_text (some s) text = s

session_kept : Option String → String
session_kept none = ""
session_kept (some c) = format (" session " ∷ c ∷ " kept" ∷ [])

-- The note is written before the move is tried.
unfoldable pub park : ItemId → Option String → Action String WorkItem
unfolding not_blank park_note session_kept
park id reason = do
  noted ←
      change_card "no such item" id
        λ b it. ok (record it { notes = park_note b.clock (not_blank reason) it.notes })
  transition_str id State.backlog "human" (some (or_text (not_blank reason) "parked"))
  item ← change_card "no such item" id λ _ it. ok (record it { parked = true })
  modify (emit item)
  modify (
      story id (
        format (
          noted.title
          ∷ ": parked — agent stopped, sandbox kept;"
          ∷ session_kept item.conversation_id
          ∷ " unpark to resume."
          ∷ [])))
  pure item

unfoldable pub unparked : WorkItem → Result String WorkItem
unparked it =
    if not (state_eq it.state State.backlog)
    then err "only a Backlog card can be resumed from park"
    else if not it.parked
    then err "that card is not parked"
    else ok (record it { parked = false })

unfoldable pub unpark : ItemId → Action String WorkItem
unfolding unparked
unpark id = do
  change_card "no such item" id λ _ it. unparked it
  item ← enqueue_dispatch id
  modify (
      story id (
        format (
          item.title
          ∷ ": unparked and queued — supervisor will resume"
          ∷ (if is_some item.conversation_id then " the same conversation" else "")
          ∷ "."
          ∷ [])))
  pure item

abbrev pub or_some : Option String → String → Option String
or_some none text = some text
or_some (some s) text = some s

-- The session and the sandbox are forgotten before the move is tried.
unfoldable pub halt : ItemId → Option String → Action String WorkItem
halt id reason = do
  env_to_delete ← gets (λ b. environment_of (Map.get b.state.items id))
  attempt {E = Unit} (
      change_card tt id
        (λ _ it. ok (record it { conversation_id = none; parked = false; environment = none })))
  item ← transition_str id State.backlog "human" (or_some reason "halted")
  modify (spawn_delete env_to_delete)
  modify (
      story item.id (
        format
          (item.title ∷ ": halted — session and sandbox discarded; next claim starts clean." ∷ [])))
  pure item

unfoldable pub request_changes : ItemId → String → Action String WorkItem
request_changes id note = do
  steer id (format ("Changes requested: " ∷ note ∷ []))
  attempt {E = Unit} (change_card tt id (λ _ it. ok (record it { proposal = none })))
  item ← transition_str id State.backlog "human" (some (format ("changes requested: " ∷ note ∷ [])))
  modify (emit item)
  modify (story id (format (item.title ∷ ": changes requested — " ∷ note ∷ [])))
  pure item
