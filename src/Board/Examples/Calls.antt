-- ===== src/Board/Examples/Calls.antt =====
-- Boards with a few cards in various states, and the theorems on single calls applied to them.
use sandboard.Prelude.{
  ◌+◌, ◌*◌, ◌-◌, ◌≡◌, refl, none, some, [], ◌∷◌, ◌++◌, true, false, is_empty, length, drop,
}
use sandboard.Prelude.Int.{pos}
use sandboard.Prelude.Result.{Result, ok, err}
use sandboard.Map
use sandboard.Map.{nat_key, string_key}
use sandboard.Map.Index.{members}
use sandboard.Model.State.{State, state_key}
use sandboard.Model.Plan.{TaskProposal}
use sandboard.Model.Item.{WorkItem, Origin, new_item}
use sandboard.Model.Cockpit.{CockpitSession, new_session}
use sandboard.Machine.{TransitionError, allowed, error_text}
use sandboard.Board.State.{empty_state, insert_item, index_link_item, non_retired_child_count}
use sandboard.Board.State.Indexes.{put_item}
use sandboard.Board.Tree.{has_children, unresolved_blockers, populate_blockers}
use sandboard.Board.Feed.{story, stories_for}
use sandboard.Board.Transition.{change_card, store_back, require_card}
use sandboard.Prelude.Text.{to_lowercase, join, split_whitespace}
use sandboard.Board.Proposal.{materialize_proposal}
use sandboard.Board.Proposal.Count.{materialize_proposal_count}
use sandboard.Board.Worker.{
  claim, heartbeat, at_least_one, nanos_per_second, progress_of, clamp_progress,
}
use sandboard.Board.Worker.Claim.{claim_lem, claim_requires}
use sandboard.Board.Worker.Heartbeat.{heartbeat_keeps_deadline, expiry_of}
use sandboard.Board.Human.{halt}
use sandboard.Board.Human.Halt.{halt_refused}
use sandboard.Board.Cockpit.{park_cockpit_session, resume_cockpit_session, save_session}
use sandboard.Board.Cockpit.Session.{park-resume}
use sandboard.Board.Feed.Bounds.{stories_for-story}
use sandboard.Board.Core.{Board, new_board, ◌>>=◌, ◌>>◌, attempt}
use sandboard.Board.Examples.Garden.{blank_board}

-- A board with one card.
abbrev pub with_card : WorkItem → Board
with_card it = record blank_board { state = insert_item it blank_board.state }

abbrev pub task : WorkItem
task = record (new_item 7 2 "Plot" "dig it") {
  state = State.backlog;
  definition_of_done = some "dug";
}

abbrev claim_task : Board → Result TransitionError WorkItem × Board
claim_task = claim 2 "agent-1" none (pos 60)

pub task_there : Map.get (with_card task).state.items 2 ≡ some task
unfolding new_item new_board empty_state insert_item index_link_item Map.get Map.insert
task_there = refl

task_is_leaf : has_children (with_card task).state 2 ≡ false
unfolding new_item new_board empty_state insert_item index_link_item Map.get Map.insert has_children
    non_retired_child_count members
task_is_leaf = refl

task_is_unblocked : is_empty (unresolved_blockers (with_card task).state task) ≡ true
unfolding new_item unresolved_blockers
task_is_unblocked = refl

claim_lem_example :
    (out : WorkItem) × ((claim_task (with_card task)).0 ≡ ok out)
    × (Map.get (claim_task (with_card task)).1.state.items 2 ≡ some out)
    × (out.state ≡ State.claimed)
    × (out.parked ≡ false)
    × (out.awaiting_dispatch ≡ false)
    × (out.run_deadline_at
        ≡ some ((with_card task).clock + at_least_one (pos 60) * nanos_per_second))
    × (out.lease
        ≡ some (record {
          agent_id = "agent-1";
          granted_at = (with_card task).clock;
          last_heartbeat = (with_card task).clock;
          expires_at = (with_card task).clock + at_least_one (pos 60) * nanos_per_second;
        }))
unfolding new_item
claim_lem_example =
    claim_lem (with_card task) 2 "agent-1" none (pos 60) task task_there refl refl task_is_leaf
      task_is_unblocked

claim_requires_example :
    (it : WorkItem) × (Map.get (with_card task).state.items 2 ≡ some it)
    × (it.parked ≡ false)
    × (it.state ≡ State.backlog)
    × (has_children (with_card task).state 2 ≡ false)
    × (is_empty (unresolved_blockers (with_card task).state it) ≡ true)
unfolding new_item
claim_requires_example =
    claim_requires (with_card task) 2 "agent-1" none (pos 60)
      (claim_lem (with_card task) 2 "agent-1" none (pos 60) task task_there refl refl task_is_leaf
        task_is_unblocked).0
      (claim_lem (with_card task) 2 "agent-1" none (pos 60) task task_there refl refl task_is_leaf
        task_is_unblocked).1

abbrev pub running_task : WorkItem
running_task = record task {
  state = State.running;
  run_deadline_at = some 99;
  lease =
      some (record { agent_id = "agent-1"; granted_at = 7; last_heartbeat = 7; expires_at = 99 });
  environment = some "box-1";
}

pub running_there : Map.get (with_card running_task).state.items 2 ≡ some running_task
unfolding new_item new_board empty_state insert_item index_link_item Map.get Map.insert
running_there = refl

abbrev beaten_task : WorkItem
beaten_task = record running_task {
  progress = 0;
  lease =
      some (record { agent_id = "agent-1"; granted_at = 7; last_heartbeat = 7; expires_at = 99 });
}

beaten_there :
    Map.get (heartbeat 2 "agent-1" (pos 0) (with_card running_task)).1.state.items 2
    ≡ some beaten_task
unfolding new_item new_board empty_state insert_item index_link_item Map.get Map.insert heartbeat
    ◌>>=◌ change_card store_back progress_of clamp_progress
beaten_there = refl

heartbeat_keeps_deadline_example :
    (beaten_task.run_deadline_at ≡ running_task.run_deadline_at)
    × (expiry_of beaten_task.lease ≡ expiry_of running_task.lease)
heartbeat_keeps_deadline_example =
    heartbeat_keeps_deadline 2 "agent-1" (pos 0) (with_card running_task) running_task beaten_task
      running_there beaten_there

abbrev done_task : WorkItem
done_task = record task { state = State.done; environment = some "box-1" }

done_there : Map.get (with_card done_task).state.items 2 ≡ some done_task
unfolding new_item new_board empty_state insert_item index_link_item Map.get Map.insert
done_there = refl

-- A parked card waits in Backlog, with its sandbox kept.
abbrev parked_task : WorkItem
parked_task = record task { parked = true; environment = some "box-1" }

parked_there : Map.get (with_card parked_task).state.items 2 ≡ some parked_task
unfolding new_item new_board empty_state insert_item index_link_item Map.get Map.insert
parked_there = refl

halt_refused_example : halt 2 none (with_card parked_task) ≡ (
  err (error_text (TransitionError.illegal parked_task.id parked_task.state State.backlog)),
  record (with_card parked_task) {
    state =
        put_item 2
          (record parked_task { conversation_id = none; parked = false; environment = none })
          (with_card parked_task).state;
  },
)
unfolding allowed
halt_refused_example = halt_refused 2 none (with_card parked_task) parked_task parked_there refl

abbrev session : CockpitSession
session = new_session 7 none none

abbrev session_board : Board
session_board = record blank_board {
  state = record blank_board.state { cockpit_session = some session };
}

park-resume_example : (park_cockpit_session >> resume_cockpit_session) session_board ≡ (
  ok (record session { updated_at = session_board.clock }),
  save_session (some (record session { updated_at = session_board.clock })) session_board,
)
unfolding new_session
park-resume_example = park-resume session_board session refl refl

stories_for-story_example :
    stories_for (story 2 "dug" (with_card task)) 2
    ≡ drop (length (stories_for (with_card task) 2) + 1 - 200) (stories_for (with_card task) 2)
      ++ record { at = (with_card task).clock; text = "dug" } ∷ []
stories_for-story_example = stories_for-story 2 "dug" (with_card task)

-- A card whose proposal names a Task that its Project has already.
abbrev proposed : TaskProposal
proposed = record {
  summary = "one plot";
  tasks =
      record {
        key = "plot";
        title = "Plot";
        intent = "dig it";
        definition_of_done = "dug";
        blocked_by_keys = [];
        capability = none;
        repo = none;
        item_id = none;
      }
      ∷ [];
}

abbrev splitter : WorkItem
splitter = record (new_item 7 3 "Split" "split it") { parent = some 1; proposal = some proposed }

abbrev sibling : WorkItem
sibling = record task { parent = some 1 }

abbrev split_board : Board
split_board = record blank_board {
  state = insert_item sibling (insert_item splitter blank_board.state);
}

splitter_there : Map.get split_board.state.items 3 ≡ some splitter
unfolding new_item new_board empty_state insert_item index_link_item Map.get Map.insert
splitter_there = refl

split_made : (materialize_proposal 3 "human" Origin.human split_board).0 ≡ ok (sibling ∷ [])
unfolding new_item new_board empty_state insert_item index_link_item Map.get Map.insert
    materialize_proposal ◌>>=◌ require_card populate_blockers Map.values to_lowercase join
    split_whitespace attempt
split_made = refl

materialize_proposal_count_example : length (sibling ∷ []) ≡ length proposed.tasks
unfolding new_item
materialize_proposal_count_example =
    materialize_proposal_count 3 "human" Origin.human split_board splitter proposed (sibling ∷ [])
      splitter_there refl split_made
