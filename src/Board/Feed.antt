-- ===== src/Board/Feed.antt =====
-- src/store.rs: the numbered feed of events, the catch-up of a client, the stories of a goal and the
-- ring of agent log lines.
pub mod CatchUp
pub mod Bounds
use sandboard.Prelude.{
  ℕ, ◌+◌, ◌-◌, suc, zero, String, Option, none, some, List, [], ◌∷◌, ◌++◌, Bool, true, ltb, leb,
  ◌==◌, length, keep, drop, if◌then◌else◌,
}
use sandboard.Map
use sandboard.Map.{Map, nat_key}
use sandboard.Model.Item.{ItemId, WorkItem}
use sandboard.Board.State.{BoardState, StoryLine}
use sandboard.Board.Event.{BoardEvent, seq_of}
use sandboard.Board.Tree.{goal_of, populate_blockers}
use sandboard.Board.Core.{Board}

-- A new element of a ring: the oldest makes room once the ring has `capacity` elements.
unfoldable pub push_ring : {A : Type 0} → ℕ → List A → A → List A
push_ring capacity ring x = (if leb capacity (length ring) then drop 1 ring else ring) ++ x ∷ []

unfoldable pub record_and_send : BoardEvent → Board → Board
unfolding push_ring
record_and_send event b = record b {
  event_buffer = push_ring b.buffer_capacity b.event_buffer event;
  sent = b.sent ++ event ∷ [];
}

-- `next_seq` and `record_and_send` of the event that gets the number.
unfoldable pub number_and_send : (ℕ → BoardEvent) → Board → Board
unfolding record_and_send
number_and_send event b = record_and_send (event (b.seq + 1)) (record b { seq = b.seq + 1 })

unfoldable pub emit : WorkItem → Board → Board
unfolding number_and_send populate_blockers
emit item b =
    let full = populate_blockers b.state item in
    let sent = number_and_send (λ seq. BoardEvent.upsert seq full) b in record sent { dirty = true }

pub data CatchUpResult : Type 0 where
  events : List BoardEvent → CatchUpResult
  reset : ℕ → CatchUpResult

catch_up_from : List BoardEvent → ℕ → ℕ → CatchUpResult
unfolding seq_of
catch_up_from [] last_seq current_seq = CatchUpResult.reset current_seq
catch_up_from (oldest ∷ rest) last_seq current_seq =
    if ltb (last_seq + 1) (seq_of oldest)
    then CatchUpResult.reset current_seq
    else CatchUpResult.events (keep (λ ev. ltb last_seq (seq_of ev)) (oldest ∷ rest))

unfoldable pub catch_up : Board → ℕ → CatchUpResult
unfolding catch_up_from
catch_up b last_seq =
    if ltb b.seq last_seq
    then CatchUpResult.reset b.seq
    else if last_seq == b.seq
    then CatchUpResult.events []
    else catch_up_from b.event_buffer last_seq b.seq

abbrev or_no_lines : {A : Type 0} → Option (List A) → List A
or_no_lines none = []
or_no_lines (some lines) = lines

-- The last 200 lines are kept.
unfoldable pub add_story : List StoryLine → StoryLine → List StoryLine
add_story lines line =
    let entries = lines ++ line ∷ [] in
    if ltb 200 (length entries) then drop (length entries - 200) entries else entries

unfoldable pub story : ItemId → String → Board → Board
unfolding goal_of add_story number_and_send
story near text b =
    let goal = goal_of b.state near in
    let line : StoryLine = record { at = b.clock; text = text } in
    let lines = add_story (or_no_lines (Map.get b.state.stories goal)) line in
    let told = record b {
      state = record b.state { stories = Map.insert b.state.stories goal lines };
      dirty = true;
    } in
    number_and_send (λ seq. BoardEvent.story seq goal line.at line.text) told

unfoldable pub stories_for : Board → ItemId → List StoryLine
unfolding goal_of
stories_for b near = or_no_lines (Map.get b.state.stories (goal_of b.state near))

unfoldable pub append_agent_log : ItemId → String → Board → Board
unfolding push_ring
append_agent_log id line b =
    let ring = or_no_lines (Map.get b.live_agent_logs id) in
    record b { live_agent_logs = Map.insert b.live_agent_logs id (push_ring 300 ring line) }

unfoldable pub get_agent_logs : Board → ItemId → List String
get_agent_logs b id = or_no_lines (Map.get b.live_agent_logs id)

unfoldable pub clear_agent_logs : ItemId → Board → Board
clear_agent_logs id b = record b { live_agent_logs = Map.remove b.live_agent_logs id }
