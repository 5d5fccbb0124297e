-- ===== src/Socket/Examples.antt =====
-- src/ws.rs: a frame and a subscription that run.
use sandboard.Prelude.{ℕ, ◌≡◌, refl, some, [], ◌∷◌, ◌++◌, arith}
use sandboard.Prelude.Result.{ok, err}
use sandboard.Board.Event.{BoardEvent, seq_of}
use sandboard.Board.Core.{Board, new_board}
use sandboard.Board.Feed.{number_and_send}
use sandboard.Socket.Frame.{WsFrame, IoError, read_frame, write_frame}
use sandboard.Socket.Frame.Bytes.{read_exact}
use sandboard.Socket.Frame.Utf8.{is_utf8}
use sandboard.Socket.Frame.{payload_of}
use sandboard.Socket.Handshake.{Answer, sha1, ws_handler}
use sandboard.Schema.{default_schema}
use sandboard.Socket.Frame.RoundTrip.{read_frame-write_frame}
use sandboard.Socket.Connection.{ClientMessage, Json}

-- A masked text frame of a client: "Hello", by the mask 37 FA 21 3D.
masked :
    read_frame (0x81 ∷ 0x85 ∷ 0x37 ∷ 0xFA ∷ 0x21 ∷ 0x3D ∷ 0x7F ∷ 0x9F ∷ 0x4D ∷ 0x51 ∷ 0x58 ∷ [])
    ≡ ok (some (WsFrame.text (0x48 ∷ 0x65 ∷ 0x6C ∷ 0x6C ∷ 0x6F ∷ [])), [])
unfolding read_frame read_exact is_utf8
masked = refl

cut_off : read_frame (0x82 ∷ 0x7E ∷ 0x01 ∷ []) ≡ err IoError.unexpected_eof
unfolding read_frame read_exact
cut_off = refl

-- An overlong form of the slash is not UTF-8.
overlong : read_frame (0x81 ∷ 0x02 ∷ 0xC0 ∷ 0xAF ∷ []) ≡ err (IoError.invalid_data "invalid utf-8")
unfolding read_frame read_exact is_utf8
overlong = refl

read_frame-write_frame_example :
    read_frame (write_frame (WsFrame.text (0xE2 ∷ 0x82 ∷ 0xAC ∷ [])) ++ 0x88 ∷ [])
    ≡ ok (some (WsFrame.text (0xE2 ∷ 0x82 ∷ 0xAC ∷ [])), 0x88 ∷ [])
unfolding is_utf8 payload_of
read_frame-write_frame_example =
    read_frame-write_frame (WsFrame.text (0xE2 ∷ 0x82 ∷ 0xAC ∷ [])) (0x88 ∷ []) refl (omega arith)

abbrev deleted : ℕ → BoardEvent
deleted seq = BoardEvent.delete seq 7

abbrev after_none : Board
after_none = new_board default_schema 1000

abbrev after_two : Board
after_two = number_and_send deleted (number_and_send deleted after_none)

abbrev after_three : Board
after_three = number_and_send deleted after_two

-- A client whose every text asks for the events after the first, and events that are printed as their number.
abbrev toy_json : Json
toy_json = record {
  from_str = λ bytes. some (ClientMessage.subscribe (some 1));
  to_string = λ event. some (seq_of event ∷ []);
}

-- The message "abc" of RFC 3174.
sha1_abc :
    sha1 (0x61 ∷ 0x62 ∷ 0x63 ∷ [])
    ≡ 0xA9 ∷ 0x99 ∷ 0x3E ∷ 0x36 ∷ 0x47 ∷ 0x06 ∷ 0x81 ∷ 0x6A ∷ 0xBA ∷ 0x3E ∷ 0x25 ∷ 0x71 ∷ 0x78
      ∷ 0x50 ∷ 0xC2 ∷ 0x6C ∷ 0x9C ∷ 0xD0 ∷ 0xD8 ∷ 0x9D ∷ []
unfolding sha1
sha1_abc = refl

-- The key of RFC 6455, with the digest before base64.
accept_rfc6455 :
    ws_handler
      (λ digest. digest)
      (some (
        0x64 ∷ 0x47 ∷ 0x68 ∷ 0x6C ∷ 0x49 ∷ 0x48 ∷ 0x4E ∷ 0x68 ∷ 0x62 ∷ 0x58 ∷ 0x42 ∷ 0x73 ∷ 0x5A
        ∷ 0x53 ∷ 0x42 ∷ 0x75 ∷ 0x62 ∷ 0x32 ∷ 0x35 ∷ 0x6A ∷ 0x5A ∷ 0x51 ∷ 0x3D ∷ 0x3D ∷ []))
    ≡ Answer.switching_protocols (
        0xB3 ∷ 0x7A ∷ 0x4F ∷ 0x2C ∷ 0xC0 ∷ 0x62 ∷ 0x4F ∷ 0x16 ∷ 0x90 ∷ 0xF6 ∷ 0x46 ∷ 0x06 ∷ 0xCF
        ∷ 0x38 ∷ 0x59 ∷ 0x45 ∷ 0xB2 ∷ 0xBE ∷ 0xC4 ∷ 0xEA ∷ [])
unfolding ws_handler
accept_rfc6455 = refl
