-- ===== src/Socket/Handshake.antt =====
-- src/ws.rs: SHA-1 and the answer to the handshake.
use Prim.Native.Nat.{bit_and, bit_or, bit_xor}
use sandboard.Prelude.{
  ℕ, zero, suc, ◌+◌, ◌*◌, ◌-◌, ◌/◌, ◌%◌, ◌^◌, Option, none, some, List, [], ◌∷◌, ◌++◌, ltb, ◌==◌,
  length, drop, if◌then◌else◌,
}
use sandboard.Socket.Frame.Bytes.{be_bytes, from_be}

wrapping_add : ℕ → ℕ → ℕ
wrapping_add a b = (a + b) % 2 ^ 32

rotate_left : ℕ → ℕ → ℕ
rotate_left a n = (a * 2 ^ n) % 2 ^ 32 + a / 2 ^ (32 - n)

-- `!a`
flip : ℕ → ℕ
flip a = 2 ^ 32 - 1 - a

pub record Hash : Type 0 where
  pub a : ℕ
  pub b : ℕ
  pub c : ℕ
  pub d : ℕ
  pub e : ℕ

-- The zeros behind the mark, at most 63 of them.
push_zeros : ℕ → ℕ → List ℕ
push_zeros zero len = []
push_zeros (suc rounds) len =
    let rest = push_zeros rounds (len + 1) in if len % 64 == 56 then [] else 0 ∷ rest

unfoldable pub padded : List ℕ → List ℕ
unfolding push_zeros be_bytes
padded input =
    (input ++ 0x80 ∷ []) ++ (push_zeros 64 (length input + 1) ++ be_bytes 8 (length input * 8))

word_at : ℕ → List ℕ → ℕ
word_at n [] = 0
word_at zero (x ∷ xs) = x
word_at (suc n) (x ∷ xs) = word_at n xs

-- The sixteen words of a chunk.
words : ℕ → List ℕ → List ℕ
unfolding from_be
words (suc n) (p ∷ q ∷ r ∷ s ∷ bytes) = from_be 0 (p ∷ q ∷ r ∷ s ∷ []) ∷ words n bytes
words _ _ = []

-- The words 16 to 79, each from those 3, 8, 14 and 16 before it; the latest stands first.
spread : ℕ → List ℕ → List ℕ
unfolding word_at rotate_left
spread zero w = w
spread (suc n) w =
    let mixed =
      bit_xor (bit_xor (bit_xor (word_at 2 w) (word_at 7 w)) (word_at 13 w)) (word_at 15 w) in
    spread n (rotate_left mixed 1 ∷ w)

choice : ℕ → Hash → ℕ × ℕ
unfolding flip
choice i h =
    if ltb i 20
    then (bit_or (bit_and h.b h.c) (bit_and (flip h.b) h.d), 0x5A827999)
    else if ltb i 40
    then (bit_xor (bit_xor h.b h.c) h.d, 0x6ED9EBA1)
    else if ltb i 60
    then (bit_or (bit_or (bit_and h.b h.c) (bit_and h.b h.d)) (bit_and h.c h.d), 0x8F1BBCDC)
    else (bit_xor (bit_xor h.b h.c) h.d, 0xCA62C1D6)

turn : ℕ → ℕ → Hash → Hash
unfolding choice rotate_left wrapping_add
turn i w h =
    let (f, k) = choice i h in
    record {
      a = wrapping_add (wrapping_add (wrapping_add (wrapping_add (rotate_left h.a 5) f) h.e) k) w;
      b = h.a;
      c = rotate_left h.b 30;
      d = h.c;
      e = h.d;
    }

turns : ℕ → List ℕ → Hash → Hash
unfolding turn
turns i [] h = h
turns i (w ∷ ws) h = turns (i + 1) ws (turn i w h)

reversed : List ℕ → List ℕ → List ℕ
reversed [] acc = acc
reversed (x ∷ xs) acc = reversed xs (x ∷ acc)

chunk : List ℕ → Hash → Hash
unfolding words spread turns reversed wrapping_add
chunk bytes h =
    let w = reversed (spread 64 (reversed (words 16 bytes) [])) [] in
    let out = turns 0 w h in
    record {
      a = wrapping_add h.a out.a;
      b = wrapping_add h.b out.b;
      c = wrapping_add h.c out.c;
      d = wrapping_add h.d out.d;
      e = wrapping_add h.e out.e;
    }

chunks : ℕ → List ℕ → Hash → Hash
unfolding chunk
chunks zero bytes h = h
chunks (suc n) bytes h = chunks n (drop 64 bytes) (chunk bytes h)

unfoldable pub sha1 : List ℕ → List ℕ
unfolding padded chunks be_bytes
sha1 input =
    let msg = padded input in
    let h =
      chunks (length msg / 64) msg (record {
        a = 0x67452301;
        b = 0xEFCDAB89;
        c = 0x98BADCFE;
        d = 0x10325476;
        e = 0xC3D2E1F0;
      }) in
    be_bytes 4 h.a ++ (be_bytes 4 h.b ++ (be_bytes 4 h.c ++ (be_bytes 4 h.d ++ be_bytes 4 h.e)))

-- `258EAFA5-E914-47DA-95CA-C5AB0DC85B11`
abbrev guid : List ℕ
guid =
    0x32 ∷ 0x35 ∷ 0x38 ∷ 0x45 ∷ 0x41 ∷ 0x46 ∷ 0x41 ∷ 0x35 ∷ 0x2D ∷ 0x45 ∷ 0x39 ∷ 0x31 ∷ 0x34 ∷ 0x2D
    ∷ 0x34 ∷ 0x37 ∷ 0x44 ∷ 0x41 ∷ 0x2D ∷ 0x39 ∷ 0x35 ∷ 0x43 ∷ 0x41 ∷ 0x2D ∷ 0x43 ∷ 0x35 ∷ 0x41
    ∷ 0x42 ∷ 0x30 ∷ 0x44 ∷ 0x43 ∷ 0x38 ∷ 0x35 ∷ 0x42 ∷ 0x31 ∷ 0x31 ∷ []

-- The encoding of base64 is an argument.
unfoldable pub compute_ws_accept : (List ℕ → List ℕ) → List ℕ → List ℕ
unfolding sha1
compute_ws_accept encode key = encode (sha1 (key ++ guid))

pub data Answer : Type 0 where
  bad_request : Answer
  switching_protocols : List ℕ → Answer

-- The answer to a request with the header `sec-websocket-key`, or without one that is a text.
unfoldable pub ws_handler : (List ℕ → List ℕ) → Option (List ℕ) → Answer
unfolding compute_ws_accept
ws_handler encode none = Answer.bad_request
ws_handler encode (some key) = Answer.switching_protocols (compute_ws_accept encode key)
