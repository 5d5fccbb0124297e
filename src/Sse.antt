-- ===== src/Sse.antt =====
-- src/sse.rs: the stream of server-sent events that follows the feed of the board.
pub mod Agrees
mod Examples
use sandboard.Prelude.{
  ℕ, String, Option, none, some, List, [], ◌∷◌, ◌++◌, ltb, ◌^◌, ◌-◌, if◌then◌else◌,
}
use sandboard.Prelude.Text.Parse.{parse_unsigned}
use sandboard.Board.Event.{BoardEvent, seq_of}
use sandboard.Board.Core.{Board}
use sandboard.Socket.Connection.{Json, initial_events}

last_event_id : Option String → Option ℕ
unfolding parse_unsigned
last_event_id none = none
last_event_id (some header) = parse_unsigned (2 ^ 64 - 1) header

-- The parameter of the query, or else the header `last-event-id` where it is a text.
unfoldable pub last_seq : Option ℕ → Option String → Option ℕ
unfolding last_event_id
last_seq (some seq) header = some seq
last_seq none header = last_event_id header

as_list : Option (List ℕ) → List (List ℕ)
as_list none = []
as_list (some text) = text ∷ []

-- `json_data(&ev).ok()`: no element where an event has no text
unfoldable pub json_data : Json → BoardEvent → List (List ℕ)
unfolding as_list
json_data json ev = as_list (json.to_string ev)

unfoldable pub catchup_stream : Json → List BoardEvent → List (List ℕ)
unfolding json_data
catchup_stream json [] = []
catchup_stream json (ev ∷ evs) = json_data json ev ++ catchup_stream json evs

-- What the queue gives is an event, or none where some were dropped.
unfoldable pub live_item : Json → ℕ → Board → Option BoardEvent → List (List ℕ)
unfolding json_data seq_of
live_item json min_live_seq b none = json_data json (BoardEvent.reset b.seq)
live_item json min_live_seq b (some ev) =
    if ltb min_live_seq (seq_of ev) then json_data json ev else []

unfoldable pub live_stream : Json → ℕ → List (Board × Option BoardEvent) → List (List ℕ)
unfolding live_item
live_stream json min_live_seq [] = []
live_stream json min_live_seq ((b, msg) ∷ queue) =
    live_item json min_live_seq b msg ++ live_stream json min_live_seq queue

-- The texts of the stream behind its greeting, for a queue whose elements are read on the boards beside
-- them. The start is the one of a WebSocket.
unfoldable pub events : Json → Board → Option ℕ → List (Board × Option BoardEvent) → List (List ℕ)
unfolding initial_events catchup_stream live_stream
events json b last_seq queue =
    let start = initial_events b last_seq in
    catchup_stream json start.0 ++ live_stream json start.1 queue
