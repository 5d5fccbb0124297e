-- ===== src/Board/Moves.antt =====
-- src/store.rs: `transition`, the public move of a card, with what follows when a card is done.
pub mod Retire
use sandboard.Prelude.{
  String, Option, none, some, List, [], ◌∷◌, ◌++◌, Bool, true, false, ◌&&◌, not, ◌==◌, is_empty,
  any, keep, if◌then◌else◌,
}
use sandboard.Prelude.Text.{format, show_ℕ, join}
use sandboard.Map
use sandboard.Map.{nat_key}
use sandboard.Machine.{TransitionError, error_text}
use sandboard.Model.State.{State, is_terminal}
use sandboard.Model.Item.{ItemId, WorkItem}
use sandboard.Board.State.{BoardState}
use sandboard.Board.Tree.{unresolved_blockers}
use sandboard.Board.Feed.{emit, story}
use sandboard.Board.Transition.{transition_card, reread}
use sandboard.Board.Proposal.{materialize_proposal_on_done}
use sandboard.Board.Core.{Board, Action, pure, gets, modify, ◌>>=◌, ◌>>◌, map_error, attempt}

abbrev same_parent : Option ItemId → Option ItemId → Bool
same_parent none none = true
same_parent (some p) (some q) = p == q
same_parent _ _ = false

-- The card waits for `id`, and for nothing else that is still open.
is_unblocked_by : BoardState → ItemId → Option ItemId → WorkItem → Bool
is_unblocked_by s id parent other =
    not (other.id == id)
    && same_parent other.parent parent
    && not (is_terminal other.state)
    && any (λ b. b == id) other.blocked_by
    && is_empty (unresolved_blockers s other)

unfoldable pub newly_unblocked_siblings : BoardState → ItemId → List WorkItem
unfolding is_unblocked_by
newly_unblocked_siblings s id = elim (Map.get s.items id) [
  | none ↦ []
  | some item ↦ keep (is_unblocked_by s id item.parent) (Map.values s.items)
]

named : WorkItem → String
named u = format ("#" ∷ show_ℕ u.id ∷ " (" ∷ u.title ∷ ")" ∷ [])

names : List WorkItem → List String
unfolding named
names [] = []
names (u ∷ rest) = named u ∷ names rest

unfoldable pub announce : ItemId → List WorkItem → Board → Board
unfolding names
announce id [] b = b
announce id (next ∷ []) b =
    story id (format ("Unblocked next sibling " ∷ named next ∷ " — ready to dispatch." ∷ [])) b
announce id (u ∷ v ∷ rest) b =
    story id
      (format (
        "Unblocked next siblings: "
        ∷ join ", " (names (u ∷ v ∷ rest))
        ∷ " — ready to dispatch."
        ∷ []))
      b

unfoldable pub announce_unblocked : ItemId → Board → Board
unfolding announce
announce_unblocked id b = announce id (newly_unblocked_siblings b.state id) b

unfoldable pub environment_of : Option WorkItem → Option String
environment_of none = none
environment_of (some it) = it.environment

-- The deletion of a sandbox is spawned and not waited for.
unfoldable pub spawn_delete : Option String → Board → Board
spawn_delete none b = b
spawn_delete (some env) b = record b { deleted = b.deleted ++ env ∷ [] }

-- What follows a move to Done.
unfoldable pub finish : ItemId → State → String → Action TransitionError Unit
finish id State.done by = do
  attempt (materialize_proposal_on_done id by)
  modify (announce_unblocked id)
finish id _ by = pure tt

unfoldable pub transition :
    ItemId → State → String → Option String → Action TransitionError WorkItem
unfolding finish environment_of spawn_delete
transition id to by reason = do
  prev_env ← gets (λ b. environment_of (Map.get b.state.items id))
  item ← transition_card id to by reason
  modify (emit item)
  modify (spawn_delete (if is_terminal to then prev_env else none))
  finish id to by
  reread id item

-- `transition(…).map_err(|e| e.to_string())`
unfoldable pub transition_str : ItemId → State → String → Option String → Action String WorkItem
transition_str id to by reason = map_error error_text (transition id to by reason)
