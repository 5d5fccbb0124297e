-- ===== src/Socket/Frame/RoundTrip.antt =====
-- A frame that is written and read back.
use mathlib.Core.List.{append_assoc}
use sandboard.Prelude.{
  ℕ, ◌^◌, ◌<◌, ◌≡◌, refl, ◌∙◌, ap, some, List, [], ◌∷◌, ◌++◌, length, arith, true, false, ltb, leb,
  Bool-cases, inl, inr, if◌then◌else◌, ◌%◌, ◌==◌,
}
use sandboard.Prelude.Result.{ok, err}
use sandboard.Socket.Frame.{
  WsFrame, IoError, max_len, read_frame, write_frame, read_len, read_mask, frame_of, unmask,
  payload_of, opcode_of, len_bytes, need, or_eof, number, wide_len, unmasked, read_body,
  read_payload, with_rest,
}
use sandboard.Socket.Frame.Bytes.{be_bytes, read_exact-append, length-be_bytes, from_be-be_bytes}
use sandboard.Socket.Frame.Utf8.{is_utf8}

-- A `String` holds UTF-8.
abbrev pub IsWsFrame : WsFrame → Type 0
IsWsFrame (WsFrame.text bytes) = is_utf8 bytes ≡ true
IsWsFrame _ = Unit

need-append :
    (n : ℕ) (taken rest : List ℕ) → length taken ≡ n → need n (taken ++ rest) ≡ ok (taken, rest)
unfolding need or_eof
need-append n taken rest size = rw (← size) (ap or_eof (read_exact-append taken rest))

wide_len-be_bytes :
    (k n : ℕ) (rest : List ℕ) → n < 256 ^ k → wide_len k (be_bytes k n ++ rest) ≡ ok (n, rest)
unfolding wide_len number
wide_len-be_bytes k n rest small =
    ap number (need-append k (be_bytes k n) rest (length-be_bytes k n))
    ∙ ap (λ len. ok (len, rest)) (from_be-be_bytes k n small)

-- The second byte of a header, and what is read of it and of the bytes behind.
data Header (len : ℕ) (rest : List ℕ) : Type 0 where
  header :
      (b : ℕ) (bytes : List ℕ)
      → len_bytes len ++ rest ≡ b ∷ bytes
      → b < 128
      → read_len b bytes ≡ ok (len, rest)
      → Header len rest

read_len-len_bytes : (len : ℕ) (rest : List ℕ) → len < 256 ^ 8 → Header len rest
unfolding len_bytes read_len
read_len-len_bytes len rest small = elim (Bool-cases (ltb len 126)) [
  | inl short ↦
      let not_126 : (len == 126) ≡ false = ground arith in
      let not_127 : (len == 127) ≡ false = ground arith in
      Header.header len rest (rw short refl) (ground arith) (rw (not_126, not_127) refl)
  | inr long ↦ elim (Bool-cases (leb len 65535)) [
    | inl middle ↦
        Header.header 126 (be_bytes 2 len ++ rest) (rw (long, middle) refl) (omega arith)
          (wide_len-be_bytes 2 len rest (ground arith))
    | inr wide ↦
        Header.header 127 (be_bytes 8 len ++ rest) (rw (long, wide) refl) (omega arith)
          (wide_len-be_bytes 8 len rest small)
  ]
]

frame_of-payload_of :
    (frame : WsFrame)
    → IsWsFrame frame
    → frame_of (opcode_of frame % 16) (payload_of frame) ≡ ok (some frame)
unfolding frame_of payload_of opcode_of
frame_of-payload_of (WsFrame.text bytes) h = rw h refl
frame_of-payload_of (WsFrame.binary bytes) h = refl
frame_of-payload_of (WsFrame.ping bytes) h = refl
frame_of-payload_of (WsFrame.pong bytes) h = refl
frame_of-payload_of WsFrame.close h = refl

unmasked-payload_of :
    (frame : WsFrame) (rest : List ℕ)
    → IsWsFrame frame
    → unmasked
        (opcode_of frame % 16)
        []
        (need (length (payload_of frame)) (payload_of frame ++ rest))
      ≡ ok (some frame, rest)
unfolding unmasked with_rest unmask
unmasked-payload_of frame rest h =
    ap (unmasked (opcode_of frame % 16) [])
      (need-append (length (payload_of frame)) (payload_of frame) rest refl)
    ∙ ap (with_rest rest) (frame_of-payload_of frame h)

-- A frame that is written is read back as it was, with the bytes after it left for the next read; a
-- payload of more than 10 MiB is refused.
pub read_frame-write_frame :
    (frame : WsFrame) (rest : List ℕ)
    → IsWsFrame frame
    → length (payload_of frame) < 256 ^ 8
    → read_frame (write_frame frame ++ rest) ≡ (
        if ltb max_len (length (payload_of frame))
        then err (IoError.invalid_data "frame too large")
        else ok (some frame, rest))
unfolding read_frame read_body read_mask read_payload write_frame
read_frame-write_frame frame rest h small =
    let len = length (payload_of frame) in
    let sent = payload_of frame ++ rest in
    elim (read_len-len_bytes len sent small) [
      | Header.header b bytes starts short reads ↦
          let low : b % 128 ≡ b = omega arith in
          let plain : leb 128 b ≡ false = ground arith in
          let whole : write_frame frame ++ rest ≡ opcode_of frame ∷ b ∷ bytes =
            ap (λ tail. opcode_of frame ∷ tail)
              (append_assoc (len_bytes len) (payload_of frame) rest ∙ starts) in
          ap read_frame whole ∙ rw (low, plain, reads, unmasked-payload_of frame rest h) refl
    ]
