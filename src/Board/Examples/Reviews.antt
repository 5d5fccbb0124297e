-- ===== src/Board/Examples/Reviews.antt =====
-- src/store.rs: cards in Review, pull requests and notices on concrete boards.
use sandboard.Board.Advance.{is_live}
use sandboard.Board.Split.{has_title}
use sandboard.Prelude.Text.{split_whitespace}
use sandboard.Prelude.Text.{join}
use sandboard.Board.Proposal.{normalize_title}
use sandboard.Prelude.Text.{format}
use sandboard.Board.Advance.{is_main_advanced_steer_note}
use sandboard.Board.Advance.{has_main_advanced_steer_note}
use sandboard.Board.Advance.{is_coalesced}
use sandboard.Prelude.Text.Pieces.{lacks}
use sandboard.Board.Rebase.{overlap}
use sandboard.Model.Item.{new_item}
use sandboard.Board.Core.{new_board}
use sandboard.Board.State.{insert_item}
use sandboard.Map
use sandboard.Prelude.Text.{to_lowercase}
use sandboard.Prelude.{
  ◌≡◌, ◌∙◌, refl, String, Option, none, some, List, [], ◌∷◌, ◌++◌, true, false, ◌≤◌, map, length,
  inl,
}
use sandboard.Prelude.Text.{trim}
use mathlib.Core.Path.{subst}
use sandboard.Prelude.Result.{ok}
use sandboard.Map.{nat_key}
use sandboard.Model.State.{State}
use sandboard.Model.PullRequest.{PullRequest, from_url}
use sandboard.Model.Item.{WorkItem, Note}
use sandboard.Board.Core.{Board}
use sandboard.Board.Review.{approve_review_round, approve_review_within}
use sandboard.Board.Review.Rounds.{approve_review_round_lem}
use sandboard.Board.Rebase.{conflict_bounce_note, complete_rebase_conflict}
use sandboard.Board.Rebase.Outcome.{rebase_bounces}
use sandboard.Board.Advance.{
  main_advanced_steer_note, parse_main_advanced_steer_commit_sha, live_ids, notify_main_advanced,
}
use sandboard.Board.Event.{BoardEvent}
use sandboard.Board.Feed.{number_and_send}
use sandboard.Board.Advance.Sha.{parse-main_advanced_steer_note}
use sandboard.Board.Advance.Again.{IsTold, notify_main_advanced_again}
use sandboard.Board.Split.{SplitChildSpec, distinct_specs}
use sandboard.Board.Split.Related.{IsDistinct, distinct_specs_lem}
use sandboard.Board.Examples.Calls.{with_card, task}

abbrev pull : String
pull = "https://github.com/Acme/garden/pull/7"

abbrev reviewed_task : WorkItem
reviewed_task = record task { state = State.review; pull_requests = from_url pull ∷ [] }

abbrev reviewed_board : Board
reviewed_board = with_card reviewed_task

abbrev again : PullRequest
again = from_url "https://github.com/acme/Garden/pull/7/"

approve_review_round_lem_example :
    approve_review_round
      (approve_review_round (approve_review_within 0))
      reviewed_task.id
      reviewed_board
    ≡ approve_review_round
        (approve_review_round (approve_review_within 1))
        reviewed_task.id
        reviewed_board
approve_review_round_lem_example =
    approve_review_round_lem (approve_review_within 0) (approve_review_within 1) reviewed_task.id
      reviewed_board

abbrev conflicts : List String
conflicts = " src/bed.rs" ∷ []

rebase_bounces_example :
    (out : WorkItem) × ((complete_rebase_conflict reviewed_task.id conflicts none reviewed_board).0
      ≡ ok out)
    × (out.state ≡ State.backlog)
    × (out.lease ≡ none)
    × (out.rebase_requested ≡ false)
    × (out.awaiting_dispatch ≡ false)
    × (out.last_conflict_files ≡ map trim conflicts)
    × (out.notes
        ≡ reviewed_task.notes
          ++ record {
            at = reviewed_board.clock;
            author = "rebase";
            text = conflict_bounce_note (map trim conflicts);
          }
            ∷ [])
unfolding Map.get insert_item Map.insert new_board new_item overlap
rebase_bounces_example =
    rebase_bounces reviewed_task.id reviewed_board reviewed_task "dug" conflicts none refl refl refl
      refl

parse-main_advanced_steer_note_example :
    parse_main_advanced_steer_commit_sha (main_advanced_steer_note "main" (some " 4f2a") "trunk")
    ≡ some (trim " 4f2a")
unfolding lacks trim
parse-main_advanced_steer_note_example =
    parse-main_advanced_steer_note "main" " 4f2a" "trunk" refl refl refl refl

abbrev steered_note : Note
steered_note = record {
  at = 3;
  author = "human";
  text = main_advanced_steer_note "main" (some "4f2a") "trunk";
}

abbrev steered_task : WorkItem
steered_task = record task { awaiting_dispatch = true; notes = [] ++ steered_note ∷ [] }

-- The card carries the note of a notice, and waits since.
steered_task-IsTold : IsTold "4f2a" steered_task
unfolding lacks is_coalesced new_item has_main_advanced_steer_note is_main_advanced_steer_note
    main_advanced_steer_note format trim
steered_task-IsTold = record {
  ref = "main";
  base = "trunk";
  old = [];
  note = steered_note;
  no_bracket = refl;
  no_space = refl;
  text = refl;
  last = refl;
  waits = refl;
}

abbrev steered_board : Board
steered_board = with_card steered_task

steered_there : some steered_task ≡ Map.get steered_board.state.items 2
unfolding new_item new_board insert_item Map.get Map.insert
steered_there = refl

notify_main_advanced_again_example :
    notify_main_advanced "acme/garden" "acme/garden" "main" (some "4f2a") steered_board ≡ (
      ok [],
      number_and_send (λ seq. BoardEvent.main_advanced seq "main" (some "4f2a")) steered_board,
    )
unfolding lacks trim live_ids Map.values insert_item Map.insert new_board is_live new_item
    has_main_advanced_steer_note is_main_advanced_steer_note main_advanced_steer_note format
notify_main_advanced_again_example =
    notify_main_advanced_again "acme/garden" "acme/garden" "main" "4f2a" refl refl refl
      steered_board (λ it found. inl (told_found it found), tt)
  where
    same_card : {a b : WorkItem} → ◌≡◌ {A = Option WorkItem} (some a) (some b) → a ≡ b
    same_card e = cc

    told_found : (it : WorkItem) → Map.get steered_board.state.items 2 ≡ some it → IsTold "4f2a" it
    told_found it found =
        subst (IsTold "4f2a") (same_card (steered_there ∙ found)) steered_task-IsTold

abbrev child : String → SplitChildSpec
child title = record {
  title = title;
  intent = "dig";
  definition_of_done = "dug";
  key = none;
  blocked_by_keys = [];
  repo = none;
}

abbrev two_beds : List SplitChildSpec
two_beds = child "Dig  BED" ∷ child "dig bed" ∷ child "Rake" ∷ []

distinct_specs_lem_example :
    IsDistinct (distinct_specs 0 [] two_beds)
    × (length (distinct_specs 0 [] two_beds) ≤ length two_beds)
distinct_specs_lem_example = distinct_specs_lem two_beds

two_left : length (distinct_specs 0 [] two_beds) ≡ 2
unfolding distinct_specs normalize_title to_lowercase join split_whitespace has_title
two_left = refl
