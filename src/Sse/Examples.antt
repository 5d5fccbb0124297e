-- ===== src/Sse/Examples.antt =====
-- src/sse.rs: a stream that runs.
use sandboard.Prelude.Text.{strip_prefix}
use sandboard.Prelude.{ℕ, ◌≡◌, refl, Option, some, none, List, [], ◌∷◌, true, false}
use sandboard.Prelude.Result.{ok}
use sandboard.Board.Event.{BoardEvent, seq_of}
use sandboard.Board.Core.{Board, new_board}
use sandboard.Board.Feed.{number_and_send}
use sandboard.Schema.{default_schema}
use sandboard.Socket.Frame.{WsFrame}
use sandboard.Socket.Connection.{ClientMessage, Json, Input, opened, run}
use sandboard.Sse.{last_seq, events}
use sandboard.Sse.Agrees.{queued, turns, run-events}

-- The parameter of the query comes first.
both_given : last_seq (some 4) (some "7") ≡ some 4
unfolding last_seq
both_given = refl

header_only : last_seq none (some "7") ≡ some 7
unfolding last_seq strip_prefix
header_only = refl

header_unread : last_seq none (some "seven") ≡ none
unfolding last_seq strip_prefix
header_unread = refl

abbrev removed : ℕ → BoardEvent
removed seq = BoardEvent.delete seq 7

abbrev two_sent : Board
two_sent = number_and_send removed (number_and_send removed (new_board default_schema 1000))

-- Every text asks for the events after the first; an event is printed as its number.
abbrev number_json : Json
number_json = record {
  from_str = λ bytes. some (ClientMessage.subscribe (some 1));
  to_string = λ event. some (seq_of event ∷ []);
}

-- The queue repeats the second event, then has lost some, then brings the fifth.
abbrev lossy_queue : List (Board × Option BoardEvent)
lossy_queue = (two_sent, some (removed 2)) ∷ (two_sent, none) ∷ (two_sent, some (removed 5)) ∷ []

stream_runs : events number_json two_sent (some 1) lossy_queue ≡ (2 ∷ []) ∷ (2 ∷ []) ∷ (5 ∷ []) ∷ []
unfolding events number_and_send new_board
stream_runs = refl

run-events_example :
    run number_json
      ((two_sent, Input.frame_res (ok (some (WsFrame.text [])))) ∷ turns lossy_queue)
      (record opened { live_rx = queued lossy_queue })
    ≡ some (record {
      subscribed = true;
      min_live_seq = 2;
      writer_gone = false;
      live_rx = [];
      out = WsFrame.text (2 ∷ []) ∷ WsFrame.text (2 ∷ []) ∷ WsFrame.text (5 ∷ []) ∷ [];
    })
unfolding events number_and_send new_board
run-events_example = run-events number_json two_sent [] (some 1) lossy_queue refl
