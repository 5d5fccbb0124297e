-- ===== src/Board/Dispatch.antt =====
-- src/store.rs: the queue of cards that wait for the supervisor.
pub mod Ready
pub mod Order
pub mod Claimable
use sandboard.Prelude.{
  ℕ, String, Option, none, some, List, [], ◌∷◌, Bool, true, false, ◌&&◌, ◌||◌, not, leb, is_none,
  is_some, is_empty, any, keep, length, if◌then◌else◌,
}
use sandboard.Prelude.Text.{format, show_ℕ, show_list, str_eq}
use sandboard.Prelude.Result.{Result, ok, err}
use sandboard.Map
use sandboard.Map.{nat_key}
use sandboard.Map.Index.{members}
use sandboard.Model.State.{State, state_eq, state_key}
use sandboard.Model.Item.{ItemId, WorkItem, level_is, is_project}
use sandboard.Board.State.{BoardState}
use sandboard.Board.State.Indexes.{is_id}
use sandboard.Board.Tree.{has_children, unresolved_blockers, populate_blockers}
use sandboard.Board.Feed.{emit, story}
use sandboard.Board.Transition.{change_card, get_card}
use sandboard.Board.Worker.{may_claim}
use sandboard.Board.Core.{Board, Action, pure, raise, lift, gets, modify, ◌>>=◌, ◌>>◌, attempt}

-- The cards of the state's index, in the order of their ids.
unfoldable pub cards_in : BoardState → List ItemId → List WorkItem
cards_in s [] = []
cards_in s (id ∷ rest) = elim (Map.get s.items id) [
  | none ↦ cards_in s rest
  | some it ↦ it ∷ cards_in s rest
]

unfoldable pub serves : List String → Option String → Bool
serves capabilities none = true
serves capabilities (some c) = str_eq c "any" || any (λ have. str_eq have c) capabilities

-- A leaf that nothing blocks.
unfoldable pub is_ready : BoardState → WorkItem → Bool
is_ready s it =
    not (level_is it.level "Project")
    && not (has_children s it.id)
    && is_empty (unresolved_blockers s it)

unfoldable pub with_all_blockers : BoardState → List WorkItem → List WorkItem
with_all_blockers s [] = []
with_all_blockers s (it ∷ rest) = populate_blockers s it ∷ with_all_blockers s rest

unfoldable pub list_backlog : Board → List String → List WorkItem
unfolding cards_in is_ready members with_all_blockers
list_backlog b capabilities = with_all_blockers b.state (
    keep (λ it. is_ready b.state it && serves capabilities it.capability)
      (cards_in b.state (members b.state.ids_by_state State.backlog)))

-- A stable sort by the time of entry: an equal card stays behind those before it.
insert_by_entry : WorkItem → List WorkItem → List WorkItem
insert_by_entry it [] = it ∷ []
insert_by_entry it (x ∷ rest) =
    let later = insert_by_entry it rest in
    if leb it.entered_state_at x.entered_state_at then it ∷ x ∷ rest else x ∷ later

unfoldable pub sort_by_entry : List WorkItem → List WorkItem
unfolding insert_by_entry
sort_by_entry [] = []
sort_by_entry (it ∷ rest) = insert_by_entry it (sort_by_entry rest)

unfoldable pub list_awaiting_dispatch : Board → List WorkItem
unfolding cards_in is_ready members sort_by_entry
list_awaiting_dispatch b = sort_by_entry (
    keep (λ it. it.awaiting_dispatch && not it.parked && is_ready b.state it)
      (cards_in b.state (members b.state.ids_by_state State.backlog)))

-- The guards of `enqueue_dispatch`, in the order of the source.
unfoldable pub check_dispatch : BoardState → ItemId → WorkItem → Result String Unit
check_dispatch s id it =
    let blockers = unresolved_blockers s it in
    if not (state_eq it.state State.backlog)
    then err "only a Backlog card can be dispatched"
    else if it.parked
    then err "card is parked; unpark before dispatch"
    else if level_is it.level "Project" || has_children s id
    then err "containers are not dispatchable"
    else if not (is_empty blockers)
    then err (format ("card is blocked by " ∷ show_list blockers ∷ []))
    else if is_none it.definition_of_done
    then err "leaf needs a definition of done before dispatch"
    else ok tt

unfoldable pub queued_if : Result String Unit → WorkItem → Result String WorkItem
queued_if (err e) it = err e
queued_if (ok _) it = ok (record it { awaiting_dispatch = true })

unfoldable pub enqueue_dispatch : ItemId → Action String WorkItem
unfolding queued_if
enqueue_dispatch id = do
  allowed ← gets (λ b. may_claim b id)
  if allowed then pure tt else raise "card is parked; unpark before dispatch"
  item ← change_card "no such item" id λ b it. queued_if (check_dispatch b.state id it) it
  full ← gets (λ b. populate_blockers b.state item)
  modify (emit full)
  modify (
      story id (
        format
          (full.title ∷ ": queued for dispatch — supervisor will claim when a slot opens." ∷ [])))
  pure full

unfoldable pub clear_dispatch : ItemId → Action String WorkItem
clear_dispatch id = do
  item ←
      change_card "no such item" id
        λ _ it. ok (record it { awaiting_dispatch = false; rebase_requested = false })
  modify (emit item)
  pure item

ids_where : (WorkItem → Bool) → List WorkItem → List ItemId
ids_where test [] = []
ids_where test (it ∷ rest) =
    let later = ids_where test rest in if test it then it.id ∷ later else later

unfoldable pub clear_all : List ItemId → Action String Unit
clear_all [] = pure tt
clear_all (id ∷ rest) = do attempt {E = String} (clear_dispatch id); clear_all rest

unfoldable pub clear_awaiting_under_project : ItemId → Action String ℕ
unfolding ids_where clear_all
clear_awaiting_under_project project_id = do
  ids ← gets (λ b.
      ids_where
        (λ it.
          is_id it.parent project_id && state_eq it.state State.backlog && it.awaiting_dispatch)
        (Map.values b.state.items))
  clear_all ids
  pure (length ids)

unfoldable pub enqueue_all : List ItemId → Action String Unit
enqueue_all [] = pure tt
enqueue_all (id ∷ rest) = do attempt {E = String} (enqueue_dispatch id); enqueue_all rest

is_candidate : BoardState → ItemId → WorkItem → Bool
is_candidate s project_id it =
    is_id it.parent project_id
    && state_eq it.state State.backlog
    && not it.awaiting_dispatch
    && not it.parked
    && is_ready s it
    && is_some it.definition_of_done

candidates : BoardState → ItemId → Option WorkItem → List ItemId
unfolding is_candidate ids_where
candidates s project_id none = []
candidates s project_id (some project) =
    if project.auto_dispatch then ids_where (is_candidate s project_id) (Map.values s.items) else []

-- The candidates are chosen before the first of them is queued.
unfoldable pub auto_enqueue_project : ItemId → Action String Unit
unfolding candidates enqueue_all
auto_enqueue_project project_id = do
  chosen ← gets (λ b. candidates b.state project_id (Map.get b.state.items project_id))
  enqueue_all chosen

unfoldable pub enqueue_projects : List ItemId → Action String Unit
enqueue_projects [] = pure tt
enqueue_projects (pid ∷ rest) = do auto_enqueue_project pid; enqueue_projects rest

unfoldable pub auto_enqueue_all : Action String Unit
unfolding ids_where enqueue_projects
auto_enqueue_all = do
  project_ids ← gets (λ b.
      ids_where
        (λ it.
          it.auto_dispatch
          && not (state_eq it.state State.retired)
          && (level_is it.level "Project" || is_project it))
        (Map.values b.state.items))
  enqueue_projects project_ids

bool_eq : Bool → Bool → Bool
bool_eq true x = x
bool_eq false x = not x

unfoldable pub auto_changed : WorkItem → Bool → Result String WorkItem
auto_changed it enabled =
    if not (level_is it.level "Project") && not (is_project it)
    then err "auto mode is only for Projects"
    else ok (record it { auto_dispatch = enabled })

was_auto : Option WorkItem → Bool
was_auto none = false
was_auto (some it) = it.auto_dispatch

unfoldable pub auto_on : ItemId → WorkItem → Action String Unit
auto_on id item = do
  modify (
      story id
        (format (item.title ∷ ": auto mode on — claimable Backlog will start on its own." ∷ [])))
  auto_enqueue_project id

unfoldable pub auto_off : ItemId → WorkItem → Action String Unit
auto_off id item = do
  cleared ← clear_awaiting_under_project id
  modify (
      story id (
        format (
          item.title
          ∷ ": auto mode off — cleared "
          ∷ show_ℕ cleared
          ∷ " queued Backlog card(s); in-flight runs continue."
          ∷ [])))

or_missing : Option WorkItem → Result String WorkItem
or_missing none = err "no such item"
or_missing (some it) = ok it

unfoldable pub set_auto_dispatch : ItemId → Bool → Action String WorkItem
unfolding auto_changed was_auto bool_eq auto_on auto_off or_missing
set_auto_dispatch id enabled = do
  before ← gets (λ b. was_auto (Map.get b.state.items id))
  item ← change_card "no such item" id λ _ it. auto_changed it enabled
  full ← gets (λ b. populate_blockers b.state item)
  if bool_eq before enabled then pure full else (do
    modify (emit full)
    if enabled then auto_on id full else auto_off id full
    found ← gets (λ b. get_card b id)
    lift (or_missing found))
