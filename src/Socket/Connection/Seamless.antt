-- ===== src/Socket/Connection/Seamless.antt =====
-- src/ws.rs: what a client is sent after it subscribes, against the events that the board sends.
use sandboard.Prelude.{
  ℕ, ◌-◌, List, [], ◌∷◌, Bool, false, ltb, leb, ◌||◌, max, keep, drop, map, length, if◌then◌else◌,
}
use sandboard.Board.Event.{BoardEvent, seq_of}
use sandboard.Board.Core.{Board}
use sandboard.Socket.Frame.{WsFrame}
use sandboard.Socket.Connection.{channel_capacity, Connection, Received, Input}

-- An event as the frame that carries it.
abbrev pub frame_of : (BoardEvent → List ℕ) → BoardEvent → WsFrame
frame_of to_bytes event = WsFrame.text (to_bytes event)

-- A connection whose writer is at work.
abbrev pub conn : Bool → ℕ → List Received → List WsFrame → Connection
conn subscribed min_live_seq live_rx out = record {
  subscribed = subscribed;
  min_live_seq = min_live_seq;
  writer_gone = false;
  live_rx = live_rx;
  out = out;
}

-- The events reach the queue one by one.
abbrev pub arrivals : Board → List BoardEvent → List (Board × Input)
arrivals b events = map (λ event. (b, Input.arrives event)) events

-- The loop reads the queue as often as there are events.
abbrev pub reads : Board → List BoardEvent → List (Board × Input)
reads b events = map (λ _. (b, Input.live)) events

-- Where the feed cannot tell a client that has seen `last_seq` what it lacks.
abbrev pub is_lost : Board → ℕ → Bool
is_lost b last_seq = ltb b.seq last_seq || ltb (max 1 b.buffer_capacity) (b.seq - last_seq)

abbrev pub start_events : Board → ℕ → List BoardEvent
start_events b last_seq =
    if is_lost b last_seq then BoardEvent.reset b.seq ∷ [] else drop last_seq b.sent

-- What is sent of the events that came into the queue.
abbrev live_events : Board → ℕ → List BoardEvent → List BoardEvent
live_events b n events =
    if leb (length events) channel_capacity
    then keep (λ event. ltb n (seq_of event)) events
    else BoardEvent.reset b.seq
      ∷ keep (λ event. ltb n (seq_of event)) (drop (length events - channel_capacity) events)

-- The same, by the numbers: `later` is the board when the queue is read.
abbrev pub live_tail : Board → Board → ℕ → List BoardEvent
live_tail b later k =
    if leb (later.seq - k) channel_capacity
    then drop b.seq later.sent
    else BoardEvent.reset later.seq ∷ drop (max b.seq (later.seq - channel_capacity)) later.sent
