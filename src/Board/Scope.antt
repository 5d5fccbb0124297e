-- ===== src/Board/Scope.antt =====
-- src/store.rs: the verbs on a card with all that lies below it. The stack of the walk stands with its
-- top first. Each walk takes the number of its rounds; `none` means that they ran out.
pub mod Rounds
pub mod Subtree
pub mod Delete
use sandboard.Prelude.{
  ℕ, zero, suc, String, Option, none, some, List, [], ◌∷◌, ◌++◌, Bool, true, false, not, ◌||◌, ◌==◌,
  is_some, is_empty, any, keep, length, if◌then◌else◌,
}
use mathlib.Core.List.{reverse}
use sandboard.Prelude.Text.{format, show_ℕ}
use sandboard.Prelude.Result.{ok}
use sandboard.Map
use sandboard.Map.{nat_key}
use sandboard.Machine.{unarchive_target, debug_state}
use sandboard.Model.State.{State, state_eq}
use sandboard.Model.Item.{ItemId, WorkItem, Transition}
use sandboard.Board.State.{BoardState, remove_item}
use sandboard.Board.Event.{BoardEvent}
use sandboard.Board.Tree.{children_of_indexed}
use sandboard.Board.Feed.{number_and_send, story}
use sandboard.Board.Transition.{change_card, get_card, require_card}
use sandboard.Board.Moves.{transition, transition_str, environment_of, spawn_delete}
use sandboard.Board.Core.{Board, Action, pure, raise, gets, modify, ◌>>=◌, ◌>>◌, attempt, succeeds}

unfoldable pub add_if : Bool → ItemId → List ItemId → List ItemId
add_if true id touched = touched ++ id ∷ []
add_if false id touched = touched

unfoldable pub cut_loop :
    ℕ → Option String → List ItemId → List ItemId → Action String (Option (List ItemId))
unfolding add_if
cut_loop zero reason stack touched = pure none
cut_loop (suc rounds) reason [] touched = pure (some touched)
cut_loop (suc rounds) reason (cur ∷ stack) touched = do
  kids ← gets (λ b. children_of_indexed b.state cur)
  cut ← succeeds (transition cur State.retired "human" reason)
  cut_loop rounds reason (reverse kids ++ stack) (add_if cut cur touched)

unfoldable pub tell_cut : Option (List ItemId) → ItemId → Option WorkItem → Action String Unit
tell_cut none id found = pure tt
tell_cut (some touched) id none = pure tt
tell_cut (some touched) id (some t) = modify (
    story id
      (format ("Scope cut: " ∷ t.title ∷ " retired (" ∷ show_ℕ (length touched) ∷ " items)." ∷ [])))

unfoldable pub cut_scope : ℕ → ItemId → Option String → Action String (Option (List ItemId))
unfolding cut_loop tell_cut
cut_scope rounds id reason = do
  touched ← cut_loop rounds reason (id ∷ []) []
  found ← gets (λ b. get_card b id)
  tell_cut touched id found
  pure touched

-- The cards in the order in which they leave the stack, the last one first.
unfoldable pub visit : ℕ → BoardState → List ItemId → List ItemId → Option (List ItemId)
visit zero s stack order = none
visit (suc rounds) s [] order = some order
visit (suc rounds) s (cur ∷ stack) order =
    visit rounds s (reverse (children_of_indexed s cur) ++ stack) (cur ∷ order)

-- The state before the latest retirement of the card.
last_prior : List Transition → State → State
last_prior [] prior = prior
last_prior (t ∷ rest) prior =
    last_prior rest (if state_eq t.to State.retired then t.source else prior)

unfoldable pub prior_state : WorkItem → State
unfolding last_prior
prior_state it = last_prior it.history State.backlog

unfoldable pub restore_card : ItemId → Option String → WorkItem → Action String (Option ItemId)
restore_card cur reason it = do
  kids ← gets (λ b. children_of_indexed b.state cur)
  transition_str cur
      (unarchive_target (prior_state it) (not (is_empty kids)) (is_some it.definition_of_done))
      "human" reason
  attempt {E = Unit} (
      change_card tt cur
        (λ _ x. ok (record x { lease = none; run_deadline_at = none; awaiting_dispatch = false })))
  pure (some cur)

unfoldable pub restore_found :
    ItemId → Option String → Option WorkItem → Action String (Option ItemId)
unfolding restore_card
restore_found cur reason none = pure none
restore_found cur reason (some it) =
    if state_eq it.state State.retired then restore_card cur reason it else pure none

-- `touched` is reversed at the end, so that it is built here with the latest first.
add_front : Option ItemId → List ItemId → List ItemId
add_front none touched = touched
add_front (some id) touched = id ∷ touched

unfoldable pub restore_all : List ItemId → Option String → List ItemId → Action String (List ItemId)
unfolding restore_found add_front
restore_all [] reason touched = pure touched
restore_all (cur ∷ rest) reason touched = do
  found ← gets (λ b. get_card b cur)
  restored ← restore_found cur reason found
  restore_all rest reason (add_front restored touched)

unfoldable pub tell_restored : List ItemId → ItemId → Option WorkItem → Action String Unit
tell_restored touched id none = pure tt
tell_restored touched id (some t) = modify (
    story id (
      format (
        "Scope unarchived: "
        ∷ t.title
        ∷ " restored ("
        ∷ show_ℕ (length touched)
        ∷ " items)."
        ∷ [])))

or_unarchived : Option String → Option String
or_unarchived none = some "unarchived"
or_unarchived (some r) = some r

unfoldable pub restore_order :
    ItemId → Option String → Option (List ItemId) → Action String (Option (List ItemId))
unfolding restore_all tell_restored or_unarchived
restore_order id reason none = pure none
restore_order id reason (some order) = do
  touched ← restore_all order (or_unarchived reason) []
  found ← gets (λ b. get_card b id)
  tell_restored touched id found
  pure (some touched)

-- The deepest cards are restored first.
unfoldable pub unarchive_scope : ℕ → ItemId → Option String → Action String (Option (List ItemId))
unfolding visit restore_order
unarchive_scope rounds id reason = do
  root ← require_card (format ("no work item #" ∷ show_ℕ id ∷ [])) id
  if state_eq root.state State.retired
      then pure tt
      else raise
          (format ("#" ∷ show_ℕ id ∷ " is not retired (state=" ∷ debug_state root.state ∷ ")" ∷ []))
  order ← gets (λ b. visit rounds b.state (id ∷ []) [])
  restore_order id reason order

unfoldable pub has_id : ItemId → List ItemId → Bool
has_id id ids = any (λ x. x == id) ids

-- Push each child that is not yet known, the first child deepest.
unfoldable pub push_new : List ItemId → List ItemId → List ItemId → List ItemId
unfolding has_id
push_new [] known stack = stack
push_new (cid ∷ rest) known stack =
    push_new rest known (if has_id cid known || has_id cid stack then stack else cid ∷ stack)

unfoldable pub subtree : ℕ → BoardState → List ItemId → List ItemId → Option (List ItemId)
unfolding push_new
subtree zero s stack found = none
subtree (suc rounds) s [] found = some found
subtree (suc rounds) s (cur ∷ stack) found =
    let found' = found ++ cur ∷ [] in
    subtree rounds s (push_new (children_of_indexed s cur) found' stack) found'

unfoldable pub remove_one : ItemId → Board → Board
remove_one id b =
    let (removed, s) = remove_item id b.state in
    spawn_delete (environment_of removed) (record b { state = s })

unfoldable pub remove_all : List ItemId → Board → Board
unfolding remove_one
remove_all [] b = b
remove_all (id ∷ rest) b = remove_all rest (remove_one id b)

unfoldable pub without_blockers : List ItemId → WorkItem → WorkItem
unfolding has_id
without_blockers gone it = record it { blocked_by = keep (λ b. not (has_id b gone)) it.blocked_by }

unfoldable pub unblock_all : List ItemId → Map.Map ItemId WorkItem → Map.Map ItemId WorkItem
unfolding without_blockers
unblock_all gone [] = []
unblock_all gone ((id, it) ∷ rest) = (id, without_blockers gone it) ∷ unblock_all gone rest

-- `dirty` is set and at once cleared by `flush`, which writes the board to its store.
unfoldable pub delete_found : ItemId → Option (List ItemId) → Board → Board
unfolding remove_all unblock_all
delete_found id none b = b
delete_found id (some to_delete) b =
    let removed = remove_all to_delete b in
    let cleared = record removed {
      state = record removed.state { items = unblock_all to_delete removed.state.items };
      dirty = false;
    } in
    number_and_send (λ seq. BoardEvent.delete seq id) cleared

unfoldable pub delete_item : ℕ → ItemId → Action String (Option (List ItemId))
unfolding subtree delete_found
delete_item rounds id = do
  there ← gets (λ b. Map.contains_key b.state.items id)
  if there then pure tt else raise (format ("item #" ∷ show_ℕ id ∷ " not found" ∷ []))
  to_delete ← gets (λ b. subtree rounds b.state (id ∷ []) [])
  modify (delete_found id to_delete)
  pure to_delete
