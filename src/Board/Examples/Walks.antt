-- ===== src/Board/Examples/Walks.antt =====
-- Cards that leave their state, and the theorems on whole methods applied to them.
use sandboard.Prelude.{
  ◌+◌, ◌≡◌, refl, String, Option, none, some, List, [], ◌∷◌, ◌++◌, true, false, ltb, arith, length,
  if◌then◌else◌,
}
use sandboard.Prelude.Result.{ok}
use sandboard.Map
use sandboard.Map.{nat_key}
use sandboard.Map.Index.{link, members}
use sandboard.Map.Set
use sandboard.Model.State.{State, state_key, is_terminal}
use sandboard.Model.Item.{ItemId, WorkItem, Transition, new_item, level_is}
use sandboard.Board.State.{empty_state, insert_item, index_link_item, index_set_state}
use sandboard.Board.Tree.{children_of_indexed, has_children, unresolved_blockers, populate_blockers}
use sandboard.Board.Transition.{transition_card, enter, reread, change_card}
use sandboard.Machine.{check, allowed}
use sandboard.Board.Feed.{emit, story}
use sandboard.Prelude.Text.{format}
use sandboard.Board.Moves.{transition, transition_str}
use sandboard.Board.Moves.Retire.{retire_lem}
use sandboard.Board.Worker.{record_run_failure, claim, may_claim}
use sandboard.Board.Dispatch.{enqueue_dispatch, check_dispatch}
use sandboard.Board.Dispatch.Claimable.{enqueue-claim}
use sandboard.Prelude.Int.{pos}
use sandboard.Board.Worker.Failure.{record_run_failure_lem}
use sandboard.Board.Sound.{IsSound}
use sandboard.Board.Scope.Delete.{delete_item-IsSound}
use sandboard.Board.Scope.{cut_scope, visit, delete_item}
use sandboard.Board.Scope.Rounds.{cut_scope_ends, visit_lem}
use sandboard.Board.Core.{new_board, ◌>>=◌, map_error}
use sandboard.Board.Examples.Garden.{two_cards, garden_board, two_cards-IsSound}
use sandboard.Board.Examples.Calls.{with_card, task, task_there, running_task, running_there}

one_child : length (children_of_indexed two_cards 1) ≡ 1
unfolding new_item new_board empty_state insert_item index_link_item link members Map.get Map.insert
    Set.insert children_of_indexed
one_child = refl

cut_scope_ends_example : (out : List ItemId) × ((cut_scope 3 1 none garden_board).0 ≡ ok (some out))
cut_scope_ends_example =
    cut_scope_ends 3 1 none garden_board two_cards-IsSound (omega (arith, one_child))

visit_lem_example : visit 3 two_cards (1 ∷ []) [] ≡ some (children_of_indexed two_cards 1 ++ 1 ∷ [])
visit_lem_example = visit_lem 3 1 two_cards two_cards-IsSound (omega (arith, one_child))

abbrev leaves : State → String → Option String → Transition
leaves to by reason = record { at = 7; source = State.running; to = to; by = by; reason = reason }

abbrev retired_task : WorkItem
retired_task = record running_task {
  state = State.retired;
  lease = none;
  run_deadline_at = none;
  environment = none;
  history = leaves State.retired "human" none ∷ [];
}

retire_done : (transition 2 State.retired "human" none (with_card running_task)).0 ≡ ok retired_task
unfolding new_item new_board empty_state insert_item index_link_item link members Map.get Map.insert
    transition ◌>>=◌ transition_card check allowed has_children reread is_terminal emit
    index_set_state enter
retire_done = refl

retire_lem_example :
    ((transition 2 State.retired "human" none (with_card running_task)).1.deleted
      ≡ (with_card running_task).deleted ++ "box-1" ∷ [])
    × (retired_task.state ≡ State.retired)
    × (retired_task.environment ≡ none)
    × (retired_task.conversation_id ≡ none)
    × (retired_task.lease ≡ none)
    × (retired_task.parked ≡ false)
    × (retired_task.awaiting_dispatch ≡ false)
retire_lem_example =
    retire_lem 2 "human" none (with_card running_task) running_task "box-1" running_there refl
      retired_task retire_done

abbrev failed_task : WorkItem
failed_task = record running_task {
  state = State.backlog;
  lease = none;
  run_deadline_at = none;
  run_failures = 1;
  history = leaves State.backlog "supervisor" (some "run failed: boom") ∷ [];
}

failure_done : (record_run_failure 2 "boom" 3 (with_card running_task)).0 ≡ ok failed_task
unfolding new_item new_board empty_state insert_item index_link_item link members Map.get Map.insert
    record_run_failure ◌>>=◌ change_card transition_str map_error transition transition_card check
    allowed has_children reread is_terminal emit index_set_state enter format
failure_done = refl

failure_there :
    Map.get (record_run_failure 2 "boom" 3 (with_card running_task)).1.state.items 2
    ≡ some failed_task
unfolding new_item new_board empty_state insert_item index_link_item link members Map.get Map.insert
    record_run_failure ◌>>=◌ change_card transition_str map_error transition transition_card check
    allowed has_children reread is_terminal emit index_set_state enter story format
failure_there = refl

record_run_failure_lem_example :
    failed_task.state
    ≡ (if ltb (running_task.run_failures + 1) 3 then State.backlog else State.needs_human)
record_run_failure_lem_example =
    record_run_failure_lem 2 "boom" 3 (with_card running_task) running_task failed_task failed_task
      running_there failure_done failure_there

delete_item-IsSound_example : IsSound (delete_item 4 1 garden_board).1.state
delete_item-IsSound_example = delete_item-IsSound 4 1 garden_board two_cards-IsSound

abbrev queued_task : WorkItem
queued_task = record task { awaiting_dispatch = true }

queued_done : (enqueue_dispatch 2 (with_card task)).0 ≡ ok queued_task
unfolding new_item new_board empty_state insert_item index_link_item link members Map.get Map.insert
    enqueue_dispatch ◌>>=◌ change_card may_claim check_dispatch level_is has_children
    unresolved_blockers populate_blockers
queued_done = refl

enqueue-claim_example :
    (claimed : WorkItem) × ((claim 2 "agent-1" none (pos 60) (with_card task)).0 ≡ ok claimed)
enqueue-claim_example =
    enqueue-claim 2 (with_card task) task queued_task "agent-1" none (pos 60) task_there queued_done
