-- ===== src/Socket/Frame.antt =====
-- src/ws.rs: the frames of RFC 6455. A byte is a number below 256, a `String` its bytes in UTF-8; a
-- reader is the list of the bytes that are still to come.
pub mod Bytes
pub mod Utf8
pub mod RoundTrip
use Prim.Native.Nat.{bit_xor}
use sandboard.Prelude.{
  ℕ, zero, suc, ◌+◌, ◌*◌, ◌%◌, ◌/◌, String, Option, none, some, List, [], ◌∷◌, ◌++◌, Bool, leb, ltb,
  ◌==◌, length, is_empty, if◌then◌else◌,
}
use sandboard.Prelude.Result.{Result, ok, err}
use sandboard.Socket.Frame.Bytes.{be_bytes, from_be, read_exact}
use sandboard.Socket.Frame.Utf8.{is_utf8}

pub data WsFrame : Type 0 where
  text binary ping pong : List ℕ → WsFrame
  close : WsFrame

pub data IoError : Type 0 where
  unexpected_eof : IoError
  invalid_data : String → IoError

abbrev pub max_len : ℕ
max_len = 10 * 1024 * 1024

or_eof : Option (List ℕ × List ℕ) → Result IoError (List ℕ × List ℕ)
or_eof none = err IoError.unexpected_eof
or_eof (some parts) = ok parts

-- `read_exact` into a buffer of `n` bytes, with `?`
need : ℕ → List ℕ → Result IoError (List ℕ × List ℕ)
unfolding or_eof
need n bytes = or_eof (read_exact n bytes)

number : Result IoError (List ℕ × List ℕ) → Result IoError (ℕ × List ℕ)
number (err e) = err e
number (ok (field, rest)) = ok (from_be 0 field, rest)

wide_len : ℕ → List ℕ → Result IoError (ℕ × List ℕ)
unfolding need number
wide_len n bytes = number (need n bytes)

-- The length after the second byte of the header.
unfoldable pub read_len : ℕ → List ℕ → Result IoError (ℕ × List ℕ)
unfolding wide_len
read_len len bytes =
    if len == 126
    then wide_len 2 bytes
    else if len == 127
    then wide_len 8 bytes
    else ok (len, bytes)

-- The mask of a frame is none or four bytes.
unfoldable pub read_mask : Bool → List ℕ → Result IoError (List ℕ × List ℕ)
unfolding need
read_mask masked bytes = if masked then need 4 bytes else ok ([], bytes)

-- The mask is turned by one byte for each byte of the payload.
unfoldable pub unmask : List ℕ → List ℕ → List ℕ
unmask [] payload = payload
unmask (m ∷ mask) [] = []
unmask (m ∷ mask) (byte ∷ payload) = bit_xor byte m ∷ unmask (mask ++ m ∷ []) payload

unfoldable pub frame_of : ℕ → List ℕ → Result IoError (Option WsFrame)
frame_of opcode payload =
    if opcode == 1
    then (if is_utf8 payload
        then ok (some (WsFrame.text payload))
        else err (IoError.invalid_data "invalid utf-8"))
    else if opcode == 2
    then ok (some (WsFrame.binary payload))
    else if opcode == 8
    then ok (some WsFrame.close)
    else if opcode == 9
    then ok (some (WsFrame.ping payload))
    else if opcode == 10
    then ok (some (WsFrame.pong payload))
    else ok (some (WsFrame.pong []))

with_rest : List ℕ → Result IoError (Option WsFrame) → Result IoError (Option WsFrame × List ℕ)
with_rest rest (err e) = err e
with_rest rest (ok frame) = ok (frame, rest)

unmasked : ℕ → List ℕ → Result IoError (List ℕ × List ℕ) → Result IoError (Option WsFrame × List ℕ)
unfolding with_rest unmask frame_of
unmasked opcode mask (err e) = err e
unmasked opcode mask (ok (payload, rest)) = with_rest rest (frame_of opcode (unmask mask payload))

read_payload : ℕ → ℕ → Result IoError (List ℕ × List ℕ) → Result IoError (Option WsFrame × List ℕ)
unfolding need unmasked
read_payload opcode len (err e) = err e
read_payload opcode len (ok (mask, rest)) = unmasked opcode mask (need len rest)

read_body : ℕ → Bool → Result IoError (ℕ × List ℕ) → Result IoError (Option WsFrame × List ℕ)
unfolding read_mask read_payload
read_body opcode masked (err e) = err e
read_body opcode masked (ok (len, bytes)) =
    if ltb max_len len
    then err (IoError.invalid_data "frame too large")
    else read_payload opcode len (read_mask masked bytes)

-- A reader at its end, or after a single byte, has no frame left.
unfoldable pub read_frame : List ℕ → Result IoError (Option WsFrame × List ℕ)
unfolding read_len read_body
read_frame (first ∷ second ∷ bytes) =
    read_body (first % 16) (leb 128 second) (read_len (second % 128) bytes)
read_frame _ = ok (none, [])

unfoldable pub opcode_of : WsFrame → ℕ
opcode_of (WsFrame.text _) = 0x81
opcode_of (WsFrame.binary _) = 0x82
opcode_of (WsFrame.ping _) = 0x89
opcode_of (WsFrame.pong _) = 0x8A
opcode_of WsFrame.close = 0x88

unfoldable pub payload_of : WsFrame → List ℕ
payload_of (WsFrame.text bytes) = bytes
payload_of (WsFrame.binary bytes) = bytes
payload_of (WsFrame.ping bytes) = bytes
payload_of (WsFrame.pong bytes) = bytes
payload_of WsFrame.close = []

unfoldable pub len_bytes : ℕ → List ℕ
len_bytes len =
    if ltb len 126
    then len ∷ []
    else if leb len 65535
    then 126 ∷ be_bytes 2 len
    else 127 ∷ be_bytes 8 len

-- The bytes that are written.
unfoldable pub write_frame : WsFrame → List ℕ
unfolding opcode_of payload_of len_bytes
write_frame frame = opcode_of frame ∷ len_bytes (length (payload_of frame)) ++ payload_of frame
