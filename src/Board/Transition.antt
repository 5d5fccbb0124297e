-- ===== src/Board/Transition.antt =====
-- src/store.rs: `transition_locked`, the one place where a card changes its state, and the access to
-- single cards under the lock.
pub mod Stands
pub mod Outcome
use sandboard.Prelude.{
  ℕ, String, Option, none, some, List, [], ◌∷◌, ◌++◌, Bool, true, false, ◌&&◌, ◌||◌, if◌then◌else◌,
}
use sandboard.Prelude.Text.{str_eq}
use sandboard.Prelude.Result.{Result, ok, err}
use sandboard.Map
use sandboard.Map.{nat_key}
use sandboard.Model.State.{State, state_eq, is_terminal}
use sandboard.Model.Item.{ItemId, WorkItem, Transition}
use sandboard.Machine.{TransitionError, check}
use sandboard.Board.State.{BoardState, index_set_state}
use sandboard.Board.State.Indexes.{put_item}
use sandboard.Board.Tree.{has_children, unresolved_blockers, populate_blockers}
use sandboard.Board.Core.{Board, Action}

-- States that imply no agent is holding the card.
unfoldable pub frees_card : State → Bool
frees_card State.backlog = true
frees_card State.needs_human = true
frees_card State.done = true
frees_card State.retired = true
frees_card State.shaping = true
frees_card _ = false

-- What a legal move to the state `to` does to the card.
unfoldable pub enter : ℕ → State → String → Option String → WorkItem → WorkItem
unfolding frees_card is_terminal
enter now to by reason it =
    let queued = state_eq to State.backlog in
    let human = queued && str_eq by "human" in
    let terminal = is_terminal to in
    let entry : Transition = record {
      at = now;
      source = it.state;
      to = to;
      by = by;
      reason = reason;
    } in
    record it {
      history = it.history ++ entry ∷ [];
      state = to;
      entered_state_at = if state_eq it.state to then it.entered_state_at else now;
      lease = if frees_card to then none else it.lease;
      run_deadline_at = if frees_card to then none else it.run_deadline_at;
      progress = if queued then 0 else it.progress;
      awaiting_dispatch = if queued || terminal then false else it.awaiting_dispatch;
      rebase_requested = if queued || terminal then false else it.rebase_requested;
      run_failures = if human then 0 else it.run_failures;
      escalation = if human then none else it.escalation;
      last_bounce_reason = if human then none else it.last_bounce_reason;
      conversation_id = if terminal then none else it.conversation_id;
      parked = if terminal then false else it.parked;
      environment = if terminal then none else it.environment;
    }

abbrev pub Step : Type 0 → Type 0
Step A = Result TransitionError A × BoardState

-- The write after the guards: the card enters the state, and the index follows.
unfoldable pub commit :
    Result TransitionError Unit → ItemId → WorkItem → WorkItem → BoardState → Step WorkItem
commit (err e) id item moved s = (err e, s)
commit (ok _) id item moved s =
    let s' = index_set_state id item.state moved.state (put_item id moved s) in
    (ok (populate_blockers s' moved), s')

unfoldable pub transition_locked :
    ℕ → ItemId → State → String → Option String → BoardState → Step WorkItem
unfolding commit
transition_locked now id to by reason s = elim (Map.get s.items id) [
  | none ↦ (err (TransitionError.no_such_item id), s)
  | some item ↦
      commit (check item to (has_children s id) (unresolved_blockers s item)) id item
        (enter now to by reason item) s
]

-- `transition_locked` under the board's write lock.
unfoldable pub transition_card :
    ItemId → State → String → Option String → Action TransitionError WorkItem
unfolding transition_locked
transition_card id to by reason b =
    let (r, s) = transition_locked b.clock id to by reason b.state in (r, record b { state = s })

unfoldable pub store_back :
    {E : Type 0} → Result E WorkItem → ItemId → Board → Result E WorkItem × Board
store_back (err e) id b = (err e, b)
store_back (ok it) id b = (ok it, record b { state = put_item id it b.state })

-- A block under the lock: the card is looked up, tested and changed, and handed back as it then is.
unfoldable pub change_card :
    {E : Type 0} → E → ItemId → (Board → WorkItem → Result E WorkItem) → Action E WorkItem
unfolding store_back
change_card missing id f b = elim (Map.get b.state.items id) [
  | none ↦ (err missing, b)
  | some it ↦ store_back (f b it) id b
]

unfoldable pub with_blockers : BoardState → Option WorkItem → Option WorkItem
with_blockers s none = none
with_blockers s (some it) = some (populate_blockers s it)

-- `get`
unfoldable pub get_card : Board → ItemId → Option WorkItem
unfolding with_blockers
get_card b id = with_blockers b.state (Map.get b.state.items id)

unfoldable pub found_or : {E : Type 0} → E → Option WorkItem → Result E WorkItem
found_or missing none = err missing
found_or missing (some it) = ok it

-- `get(id).ok_or(missing)`
unfoldable pub require_card : {E : Type 0} → E → ItemId → Action E WorkItem
unfolding found_or get_card
require_card missing id b = (found_or missing (get_card b id), b)

abbrev pub found_else : WorkItem → Option WorkItem → WorkItem
found_else it none = it
found_else it (some found) = found

-- `get(id).unwrap_or(item)`
unfoldable pub reread : {E : Type 0} → ItemId → WorkItem → Action E WorkItem
unfolding get_card
reread id item b = (ok (found_else item (get_card b id)), b)
