-- ===== src/Board/Examples/Busy.antt =====
-- A sound board with a queued card, a card whose run is overdue and one in review, and the theorems on lists,
-- sweeps and merges applied to it.
use sandboard.Board.Merge.{lists_url}
use sandboard.Model.PullRequest.{url_str}
use sandboard.Board.Merge.{item_lists_pr}
use sandboard.Board.Merge.{id_of}
use sandboard.Board.Merge.{open_with}
use sandboard.Prelude.Text.{trim}
use sandboard.Prelude.Text.Parse.{trim_end_matches}
use sandboard.Prelude.Text.{to_lowercase}
use sandboard.Board.Core.{attempt}
use sandboard.Map.Set.{insert}
use sandboard.Map.Index.{link}
use sandboard.Board.Worker.{overdue_in}
use sandboard.Board.Core.{◌>>=◌}
use sandboard.Prelude.{
  ℕ, ◌+◌, ◌≡◌, ◌↔◌, ◌⊎◌, refl, String, none, some, List, [], ◌∷◌, ◌++◌, true, false, ◌&&◌, arith,
}
use sandboard.Prelude.Result.{ok}
use sandboard.Map
use sandboard.Map.{nat_key}
use sandboard.Map.Set.{contains}
use sandboard.Model.State.{State, is_terminal}
use sandboard.Model.Item.{
  ItemId, WorkItem, Transition, new_item, level_is, all_pull_requests_merged,
}
use sandboard.Model.PullRequest.{from_url}
use sandboard.Machine.{allowed}
use sandboard.Board.State.{BoardState, empty_state, insert_item, index_link_item}
use sandboard.Board.Create.{check_parent, check_top}
use sandboard.Board.Core.{Board, new_board}
use sandboard.Board.Sound.{IsSound, IsCard}
use sandboard.Board.Kept.Cards.{insert_fresh-IsSound}
use sandboard.Board.Worker.{sweep_leases}
use sandboard.Board.Worker.Sweep.{sweep_entry, sweep_leases_lem}
use sandboard.Board.Worker.Overdue.{IsListed}
use sandboard.Board.Dispatch.{
  list_awaiting_dispatch, list_backlog, cards_in, with_all_blockers, is_ready, serves,
  sort_by_entry,
}
use sandboard.Map.Index.{members}
use sandboard.Map.Set
use sandboard.Board.Tree.{has_children, unresolved_blockers, populate_blockers}
use sandboard.Board.State.{non_retired_child_count, is_open}
use sandboard.Board.Dispatch.Order.{
  IsByEntry, Holds, IsQueued, IsOffered, lists, list_awaiting_dispatch_lem, list_backlog_lem,
}
use sandboard.Board.Merge.{
  normalize_pr_url, mark_listed_pr_merged, in_review_lane, complete_for_merged_pr_by,
}
use sandboard.Board.Merge.Complete.{done_entry, complete_for_merged_pr_lem}
use sandboard.Board.Examples.Garden.{blank_board, one_card, one_card-IsSound}

-- A path through the lifecycle, from state to state.
abbrev steps : State → List State → List Transition
steps source [] = []
steps source (to ∷ rest) =
    record { at = 7; source = source; to = to; by = "human"; reason = none } ∷ steps to rest

abbrev on_path : ℕ → String → State → List State → WorkItem
on_path id title st path = record (new_item 7 id title "dig") {
  parent = some 1;
  definition_of_done = some "dug";
  state = st;
  history = steps State.draft path;
}

-- It waits in the queue, behind a card that is not there.
abbrev queued : WorkItem
queued = record (on_path 2 "Plot" State.backlog (State.shaping ∷ State.backlog ∷ [])) {
  awaiting_dispatch = true;
  capability = some "rust";
  blocked_by = 9 ∷ [];
}

abbrev late : WorkItem
late = record (on_path 3 "Bed" State.claimed (State.shaping ∷ State.backlog ∷ State.claimed ∷ [])) {
  run_deadline_at = some 50;
}

abbrev pull : String
pull = "https://github.com/Acme/garden/pull/7"

abbrev in_review : WorkItem
in_review =
    record (on_path 4 "Fence" State.review
      (State.shaping ∷ State.backlog ∷ State.claimed ∷ State.running ∷ State.review ∷ [])) {
        pull_requests = from_url pull ∷ [];
      }

abbrev with_next : WorkItem → BoardState → BoardState
with_next it s = insert_item it (record s { next_id = s.next_id + 1 })

abbrev with_queued : BoardState
with_queued = with_next queued one_card

abbrev with_late : BoardState
with_late = with_next late with_queued

abbrev busy : BoardState
busy = with_next in_review with_late

abbrev busy_board : Board
busy_board = record blank_board { state = busy; clock = 100 }

queued-IsCard : IsCard queued
unfolding new_item is_terminal allowed
queued-IsCard = record {
  unleased = λ _. (refl, refl);
  at_rest = λ e. ground arith;
  trail = (refl, refl, (refl, refl, refl));
}

late-IsCard : IsCard late
unfolding new_item is_terminal allowed
late-IsCard = record {
  unleased = λ e. ground arith;
  at_rest = λ e. ground arith;
  trail = (refl, refl, (refl, refl, (refl, refl, refl)));
}

in_review-IsCard : IsCard in_review
unfolding new_item is_terminal allowed
in_review-IsCard = record {
  unleased = λ e. ground arith;
  at_rest = λ e. ground arith;
  trail = (refl, refl, (refl, refl, (refl, refl, (refl, refl, (refl, refl, refl)))));
}

with_queued-IsSound : IsSound with_queued
unfolding new_item new_board empty_state check_parent check_top level_is insert_item index_link_item
    Map.get Map.insert
with_queued-IsSound = insert_fresh-IsSound one_card queued refl queued-IsCard refl one_card-IsSound

with_late-IsSound : IsSound with_late
unfolding new_item new_board empty_state check_parent check_top level_is insert_item index_link_item
    Map.get Map.insert
with_late-IsSound = insert_fresh-IsSound with_queued late refl late-IsCard refl with_queued-IsSound

busy-IsSound : IsSound busy
unfolding new_item new_board empty_state check_parent check_top level_is insert_item index_link_item
    Map.get Map.insert
busy-IsSound = insert_fresh-IsSound with_late in_review refl in_review-IsCard refl with_late-IsSound

late_there : Map.get busy.items 3 ≡ some late
unfolding new_item new_board empty_state insert_item index_link_item Map.get Map.insert
late_there = refl

in_review_there : Map.get busy.items 4 ≡ some in_review
unfolding new_item new_board empty_state insert_item index_link_item Map.get Map.insert
in_review_there = refl

sweep_leases_lem_example :
    (ids : List ItemId) × ((sweep_leases busy_board).0 ≡ ok ids)
    × ((x : ItemId) → (contains ids x ≡ true) ↔ IsListed busy_board x)
    × (now : WorkItem) × (Map.get (sweep_leases busy_board).1.state.items 3 ≡ some now)
    × (((contains ids 3 ≡ false) × (now ≡ late))
        ⊎ ((contains ids 3 ≡ true)
            × (now.state ≡ State.backlog)
            × (now.lease ≡ none)
            × (now.run_deadline_at ≡ none)
            × (now.history ≡ late.history ++ sweep_entry busy_board.clock late ∷ [])))
sweep_leases_lem_example = sweep_leases_lem busy_board 3 late "dug" busy-IsSound late_there refl

-- The overdue card is swept.
late_swept : (sweep_leases busy_board).0 ≡ ok (3 ∷ [])
unfolding sweep_leases ◌>>=◌ overdue_in Map.get insert_item link Map.insert new_board new_item
    insert attempt
late_swept = refl

list_awaiting_dispatch_lem_example :
    IsByEntry (list_awaiting_dispatch busy_board)
    × ((c : ItemId)
        → (lists (list_awaiting_dispatch busy_board) c ≡ true)
          ↔ Holds busy State.backlog (IsQueued busy) c)
list_awaiting_dispatch_lem_example = list_awaiting_dispatch_lem busy_board busy-IsSound

one_queued : lists (list_awaiting_dispatch busy_board) 2 ≡ true
unfolding list_awaiting_dispatch cards_in is_ready sort_by_entry insert_item index_link_item link
    Set.insert Map.get Map.insert new_board empty_state new_item has_children
    non_retired_child_count unresolved_blockers is_open level_is members
one_queued = refl

list_backlog_lem_example :
    (lists (list_backlog busy_board ("rust" ∷ [])) 2 ≡ true)
    ↔ Holds busy State.backlog (IsOffered busy ("rust" ∷ [])) 2
list_backlog_lem_example = list_backlog_lem busy_board ("rust" ∷ []) 2 busy-IsSound

one_offered : lists (list_backlog busy_board ("rust" ∷ [])) 2 ≡ true
unfolding list_backlog cards_in is_ready serves with_all_blockers insert_item index_link_item link
    Set.insert Map.get Map.insert new_board empty_state new_item has_children
    non_retired_child_count unresolved_blockers is_open level_is members populate_blockers
one_offered = refl

abbrev merged_url : String
merged_url = "https://github.com/acme/garden/pull/7/"

complete_for_merged_pr_lem_example :
    ((all_pull_requests_merged (mark_listed_pr_merged in_review (normalize_pr_url merged_url))
          && in_review_lane in_review.state
        ≡ true)
      × ((complete_for_merged_pr_by merged_url (some 7) "" busy_board).0 ≡ ok (some 4))
      × (now : WorkItem) × (later : List Transition) × (Map.get
            (complete_for_merged_pr_by merged_url (some 7) "" busy_board).1.state.items
            4
          ≡ some now)
      × (now.history
          ≡ in_review.history ++ done_entry busy_board.clock "" (some 7) in_review ∷ later))
    ⊎ ((all_pull_requests_merged (mark_listed_pr_merged in_review (normalize_pr_url merged_url))
            && in_review_lane in_review.state
          ≡ false)
        × ((complete_for_merged_pr_by merged_url (some 7) "" busy_board).0 ≡ ok none)
        × (Map.get (complete_for_merged_pr_by merged_url (some 7) "" busy_board).1.state.items 4
            ≡ some (mark_listed_pr_merged in_review (normalize_pr_url merged_url))))
unfolding normalize_pr_url to_lowercase trim_end_matches trim open_with id_of Map.values insert_item
    Map.insert new_board new_item is_terminal item_lists_pr url_str from_url
complete_for_merged_pr_lem_example =
    complete_for_merged_pr_lem merged_url "" (some 7) busy_board 4 in_review busy-IsSound refl refl
      in_review_there

-- The card in review is finished.
merged_now :
    all_pull_requests_merged (mark_listed_pr_merged in_review (normalize_pr_url merged_url))
      && in_review_lane in_review.state
    ≡ true
unfolding all_pull_requests_merged mark_listed_pr_merged lists_url url_str trim from_url
    to_lowercase trim_end_matches in_review_lane
merged_now = refl
