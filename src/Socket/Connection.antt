-- ===== src/Socket/Connection.antt =====
-- src/ws.rs: the loop of a connection. A step takes what one branch of `select!` brings; the frames that
-- are handed to the writer are kept in their order.
pub mod Queue
pub mod Seamless
use sandboard.Prelude.{
  ℕ, Option, none, some, List, [], ◌∷◌, ◌++◌, Bool, true, false, ltb, leb, length, drop,
  if◌then◌else◌,
}
use sandboard.Prelude.Result.{Result, ok, err}
use sandboard.Board.Event.{BoardEvent, seq_of}
use sandboard.Board.Core.{Board}
use sandboard.Board.Feed.{CatchUpResult, catch_up}
use sandboard.Socket.Frame.{WsFrame, IoError}

pub data ClientMessage : Type 0 where
  subscribe : Option ℕ → ClientMessage
  ping pong : ClientMessage

-- `serde_json`, of the messages that come and of the events that go
pub record Json : Type 0 where
  pub from_str : List ℕ → Option ClientMessage
  pub to_string : BoardEvent → Option (List ℕ)

-- What the broadcast channel holds for the connection: an event, the notice that some were dropped, or
-- the end of the channel.
pub data Received : Type 0 where
  msg : BoardEvent → Received
  lagged ended : Received

-- `live_rx` is the queue of the channel, 1024 events at most, `out` what the writer was given.
pub record Connection : Type 0 where
  pub subscribed : Bool
  pub min_live_seq : ℕ
  pub writer_gone : Bool
  pub live_rx : List Received
  pub out : List WsFrame

-- What the loop waits for: a frame of the client, the tick of the ping interval, the next element of
-- the queue; and what the board adds to the queue meanwhile.
pub data Input : Type 0 where
  frame_res : Result IoError (Option WsFrame) → Input
  tick : Input
  live : Input
  arrives : BoardEvent → Input
  closes : Input

-- `{"type":"pong"}`
abbrev pong_json : List ℕ
pong_json =
    0x7B ∷ 0x22 ∷ 0x74 ∷ 0x79 ∷ 0x70 ∷ 0x65 ∷ 0x22 ∷ 0x3A ∷ 0x22 ∷ 0x70 ∷ 0x6F ∷ 0x6E ∷ 0x67 ∷ 0x22
    ∷ 0x7D ∷ []

-- The state when the loop begins.
abbrev pub opened : Connection
opened = record {
  subscribed = false;
  min_live_seq = 0;
  writer_gone = false;
  live_rx = [];
  out = [];
}

infixl 5 ◌>>=◌
-- A step after another, unless the loop was left.
abbrev pub ◌>>=◌ : Option Connection → (Connection → Option Connection) → Option Connection
none >>= next = none
some c >>= next = next c

-- `tx.send`; none once the writer has gone, which ends the connection.
unfoldable pub send : WsFrame → Connection → Option Connection
send frame c = if c.writer_gone then none else some (record c { out = c.out ++ frame ∷ [] })

unfoldable pub send_json : Option (List ℕ) → Connection → Option Connection
unfolding send
send_json none c = some c
send_json (some bytes) c = send (WsFrame.text bytes) c

-- An event that has no text is passed over.
unfoldable pub send_event : Json → BoardEvent → Connection → Option Connection
unfolding send_json
send_event json event c = send_json (json.to_string event) c

unfoldable pub send_events : Json → List BoardEvent → Connection → Option Connection
unfolding send_event
send_events json [] c = some c
send_events json (event ∷ events) c = send_event json event c >>= send_events json events

-- The number of the last event, or the number given where there is none.
last_seq_of : ℕ → List BoardEvent → ℕ
unfolding seq_of
last_seq_of seq [] = seq
last_seq_of seq (event ∷ events) = last_seq_of (seq_of event) events

-- The events that a new subscriber is sent and the number from which the queue takes over.
initial : ℕ → CatchUpResult → List BoardEvent × ℕ
unfolding last_seq_of
initial seq (CatchUpResult.events missed) = (missed, last_seq_of seq missed)
initial seq (CatchUpResult.reset current_seq) = (BoardEvent.reset current_seq ∷ [], current_seq)

unfoldable pub initial_events : Board → Option ℕ → List BoardEvent × ℕ
unfolding catch_up initial
initial_events b none = ([], 0)
initial_events b (some seq) = initial seq (catch_up b seq)

unfoldable pub begin : Json → Connection → List BoardEvent × ℕ → Option Connection
unfolding send_events
begin json c (events, max_seq) =
    send_events json events (record c { min_live_seq = max_seq }) >>= λ c.
    some (record c { subscribed = true })

unfoldable pub on_subscribe : Json → Board → Option ℕ → Connection → Option Connection
unfolding begin initial_events
on_subscribe json b last_seq c = begin json c (initial_events b last_seq)

-- A failed `send` of the answer to a ping is ignored.
or_ignored : Connection → Option Connection → Option Connection
or_ignored c none = some c
or_ignored c (some sent) = some sent

unfoldable pub on_message : Json → Board → Option ClientMessage → Connection → Option Connection
unfolding on_subscribe or_ignored
on_message json b none c = some c
on_message json b (some (ClientMessage.subscribe last_seq)) c = on_subscribe json b last_seq c
on_message json b (some ClientMessage.ping) c = or_ignored c (send (WsFrame.text pong_json) c)
on_message json b (some ClientMessage.pong) c = some c

unfoldable pub on_frame :
    Json → Board → Result IoError (Option WsFrame) → Connection → Option Connection
unfolding on_message send
on_frame json b (ok (some (WsFrame.text bytes))) c = on_message json b (json.from_str bytes) c
on_frame json b (ok (some (WsFrame.binary _))) c = some c
on_frame json b (ok (some (WsFrame.ping bytes))) c = send (WsFrame.pong bytes) c
on_frame json b (ok (some (WsFrame.pong _))) c = some c
on_frame json b (ok (some WsFrame.close)) c = none
on_frame json b (ok none) c = none
on_frame json b (err _) c = none

unfoldable pub on_live : Json → Board → List Received → Connection → Option Connection
unfolding send_event seq_of
on_live json b [] c = some c
on_live json b (Received.msg ev ∷ rest) c =
    let taken = record c { live_rx = rest } in
    if ltb c.min_live_seq (seq_of ev) then send_event json ev taken else some taken
on_live json b (Received.lagged ∷ rest) c =
    send_event json (BoardEvent.reset b.seq) (record c { live_rx = rest })
on_live json b (Received.ended ∷ rest) c = none

-- `broadcast::channel(1024)`
abbrev pub channel_capacity : ℕ
channel_capacity = 1024

unfoldable pub without_notice : List Received → List Received
without_notice (Received.lagged ∷ rest) = rest
without_notice rx = rx

-- An event comes into the queue. Where the queue is full the oldest event in it is lost, and the notice
-- of that is read first, once, before the events that are left.
unfoldable pub broadcast : BoardEvent → List Received → List Received
unfolding without_notice
broadcast ev rx =
    let held = without_notice rx in
    if leb channel_capacity (length held)
    then Received.lagged ∷ (drop 1 held ++ Received.msg ev ∷ [])
    else rx ++ Received.msg ev ∷ []

-- One turn of the loop on the board of that moment; none when the loop is left. The queue is read only
-- after a client has subscribed.
unfoldable pub step : Json → Board → Input → Connection → Option Connection
unfolding on_frame on_live send broadcast
step json b (Input.frame_res frame) c = on_frame json b frame c
step json b Input.tick c = send (WsFrame.ping []) c
step json b Input.live c = if c.subscribed then on_live json b c.live_rx c else some c
step json b (Input.arrives ev) c = some (record c { live_rx = broadcast ev c.live_rx })
step json b Input.closes c = some (record c { live_rx = c.live_rx ++ Received.ended ∷ [] })

unfoldable pub run : Json → List (Board × Input) → Connection → Option Connection
unfolding step
run json [] c = some c
run json ((b, input) ∷ inputs) c = step json b input c >>= run json inputs
