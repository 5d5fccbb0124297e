-- ===== src/Sse/Agrees.antt =====
-- src/sse.rs and src/ws.rs: the two ways of following the board tell the same.
use mathlib.Core.List.{append_assoc, append-nil}
use sandboard.Prelude.{
  ℕ, ◌≡◌, refl, sym, ◌∙◌, ap, Option, none, some, List, [], ◌∷◌, ◌++◌, Bool, true, false, ltb,
  Bool-cases, inl, inr, map,
}
use sandboard.Prelude.Result.{ok}
use sandboard.Board.Event.{BoardEvent, seq_of}
use sandboard.Board.Core.{Board}
use sandboard.Socket.Frame.{WsFrame}
use sandboard.Socket.Connection.{
  ClientMessage, Json, Received, Input, opened, send, send_json, send_event, send_events,
  initial_events, begin, on_subscribe, on_message, on_frame, on_live, step, run,
}
use sandboard.Socket.Connection.Seamless.{conn}
use sandboard.Socket.Connection.Queue.{map-append}
use sandboard.Sse.{as_list, json_data, catchup_stream, live_item, live_stream, events}

-- What the queue of a connection holds.
abbrev pub received : Option BoardEvent → Received
received none = Received.lagged
received (some ev) = Received.msg ev

abbrev pub queued : List (Board × Option BoardEvent) → List Received
queued [] = []
queued ((b, msg) ∷ queue) = received msg ∷ queued queue

-- The turns of the loop that read the queue.
abbrev pub turns : List (Board × Option BoardEvent) → List (Board × Input)
turns [] = []
turns ((b, msg) ∷ queue) = (b, Input.live) ∷ turns queue

-- The frames that carry the texts.
abbrev pub frames : List (List ℕ) → List WsFrame
frames texts = map WsFrame.text texts

send_json_lem :
    (text : Option (List ℕ)) (s : Bool) (n : ℕ) (rx : List Received) (out : List WsFrame)
    → send_json text (conn s n rx out) ≡ some (conn s n rx (out ++ frames (as_list text)))
unfolding send_json send as_list
send_json_lem none s n rx out = ap (λ o. some (conn s n rx o)) (sym (append-nil out))
send_json_lem (some text) s n rx out = refl

module _ (json : Json) where
  send_events_lem :
      (evs : List BoardEvent) (s : Bool) (n : ℕ) (rx : List Received) (out : List WsFrame)
      → send_events json evs (conn s n rx out)
        ≡ some (conn s n rx (out ++ frames (catchup_stream json evs)))
  unfolding send_events send_event catchup_stream json_data
  send_events_lem [] s n rx out = ap (λ o. some (conn s n rx o)) (sym (append-nil out))
  send_events_lem (ev ∷ evs) s n rx out =
      let head = json_data json ev in
      let tail = catchup_stream json evs in
      rw (send_json_lem (json.to_string ev) s n rx out) (
        send_events_lem evs s n rx (out ++ frames head)
        ∙ ap (λ o. some (conn s n rx o))
            (append_assoc out (frames head) (frames tail)
              ∙ ap (λ o. out ++ o) (sym (map-append WsFrame.text head tail))))

  on_live_lem :
      (b : Board) (msg : Option BoardEvent) (rest : List Received) (n : ℕ) (out : List WsFrame)
      → on_live json b (received msg ∷ rest) (conn true n (received msg ∷ rest) out)
        ≡ some (conn true n rest (out ++ frames (live_item json n b msg)))
  unfolding on_live send_event live_item json_data
  on_live_lem b none rest n out =
      send_json_lem (json.to_string (BoardEvent.reset b.seq)) true n rest out
  on_live_lem b (some ev) rest n out = elim (Bool-cases (ltb n (seq_of ev))) [
    | inl fresh ↦ rw fresh (send_json_lem (json.to_string ev) true n rest out)
    | inr seen ↦ rw seen (ap (λ o. some (conn true n rest o)) (sym (append-nil out)))
  ]

  run-turns :
      (queue : List (Board × Option BoardEvent)) (n : ℕ) (out : List WsFrame)
      → run json (turns queue) (conn true n (queued queue) out)
        ≡ some (conn true n [] (out ++ frames (live_stream json n queue)))
  unfolding run step live_stream
  run-turns [] n out = ap (λ o. some (conn true n [] o)) (sym (append-nil out))
  run-turns ((b, msg) ∷ queue) n out =
      let head = live_item json n b msg in
      let tail = live_stream json n queue in
      rw (on_live_lem b msg (queued queue) n out) (
        run-turns queue n (out ++ frames head)
        ∙ ap (λ o. some (conn true n [] o))
            (append_assoc out (frames head) (frames tail)
              ∙ ap (λ o. out ++ o) (sym (map-append WsFrame.text head tail))))

  -- A WebSocket that subscribes and then reads its queue hands the same texts to its client, in the same order, as
  -- the stream of server-sent events that starts on the same board from the same number with the same queue:
  -- whatever the queue holds, dropped events among it, and whatever events have no text.
  pub run-events :
      (b : Board) (bytes : List ℕ) (last_seq : Option ℕ) (queue : List (Board × Option BoardEvent))
      → json.from_str bytes ≡ some (ClientMessage.subscribe last_seq)
      → run json
          ((b, Input.frame_res (ok (some (WsFrame.text bytes)))) ∷ turns queue)
          (record opened { live_rx = queued queue })
        ≡ some (record {
          subscribed = true;
          min_live_seq = (initial_events b last_seq).1;
          writer_gone = false;
          live_rx = [];
          out = frames (events json b last_seq queue);
        })
  unfolding run step on_frame on_message on_subscribe begin events
  run-events b bytes last_seq queue asks =
      let start = initial_events b last_seq in
      let out = frames (catchup_stream json start.0) in
      rw (asks, send_events_lem start.0 false start.1 (queued queue) [])
        (run-turns queue start.1 out
          ∙ ap (λ o. some (conn true start.1 [] o))
              (sym (
                map-append WsFrame.text (catchup_stream json start.0)
                  (live_stream json start.1 queue))))
