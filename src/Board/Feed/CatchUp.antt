-- ===== src/Board/Feed/CatchUp.antt =====
-- The feed of a board against the list of all events that it ever sent.
use sandboard.Prelude.{
  ℕ, ◌+◌, ◌-◌, ◌<◌, suc, zero, max, ◌≡◌, sym, ap, ◌∙◌, List, [], ◌∷◌, ◌++◌, false, ltb, leb, ◌==◌,
  length, length-append, length-drop, keep, drop, drop-nil, drop-append, drop-drop_one, drop-drop,
  drop_all, arith, Bool-cases, inl, inr, ◌||◌, if◌then◌else◌,
}
use sandboard.Board.Event.{BoardEvent, seq_of}
use sandboard.Board.Core.{Board}
use sandboard.Board.Feed.{CatchUpResult, push_ring, number_and_send, catch_up, catch_up_from}

-- The events carry the numbers after `n`, one by one.
abbrev pub IsNumberedFrom : ℕ → List BoardEvent → Type 0
IsNumberedFrom n [] = Unit
IsNumberedFrom n (e ∷ es) = (seq_of e ≡ suc n) × IsNumberedFrom (suc n) es

numbered-append :
    (n : ℕ) (es : List BoardEvent) (e : BoardEvent)
    → IsNumberedFrom n es
    → seq_of e ≡ suc (n + length es)
    → IsNumberedFrom n (es ++ e ∷ [])
numbered-append n [] e h last = (omega arith, tt)
numbered-append n (d ∷ es) e h last = (h.0, numbered-append (suc n) es e h.1 (omega arith))

pub numbered-drop :
    (k n m : ℕ) (es : List BoardEvent)
    → n + k ≡ m
    → IsNumberedFrom n es
    → IsNumberedFrom m (drop k es)
numbered-drop zero n m es e h = let same : n ≡ m = omega arith in rw (← same) h
numbered-drop (suc k) n m [] e h = tt
numbered-drop (suc k) n m (d ∷ es) e h = numbered-drop k (suc n) m es (omega arith) h.1

-- What a client that has seen the numbers up to `last_seq` still lacks.
pub missed_lem :
    (n last_seq : ℕ) (es : List BoardEvent)
    → IsNumberedFrom n es
    → keep (λ ev. ltb last_seq (seq_of ev)) es ≡ drop (last_seq - n) es
missed_lem n last_seq [] h = sym (drop-nil (last_seq - n))
missed_lem n last_seq (e ∷ es) h = elim (Bool-cases (ltb last_seq (suc n))) [
  | inl fresh ↦
      let a : last_seq - n ≡ 0 = ground arith in
      let b : last_seq - suc n ≡ 0 = ground arith in
      rw (h.0, fresh, a) (ap (λ rest. e ∷ rest) (missed_lem (suc n) last_seq es h.1 ∙ rw b))
  | inr seen ↦
      let a : last_seq - n ≡ suc (last_seq - suc n) = ground arith in
      rw (h.0, seen, a) (missed_lem (suc n) last_seq es h.1)
]

-- The buffer holds the last events of all that were sent, as many as its capacity says; a capacity of
-- 0 still leaves room for one.
pub record IsLogged (b : Board) : Type 0 where
  pub numbered : IsNumberedFrom 0 b.sent
  pub counted : b.seq ≡ length b.sent
  pub window : b.event_buffer ≡ drop (length b.sent - max 1 b.buffer_capacity) b.sent

ring_step_empty :
    {A : Type 0} (capacity : ℕ) (x : A)
    → push_ring capacity (drop {A = A} (0 - max 1 capacity) []) x
      ≡ drop {A = A} (1 - max 1 capacity) (x ∷ [])
unfolding push_ring
ring_step_empty capacity x =
    let a : 0 - max 1 capacity ≡ 0 = omega arith in
    let b : 1 - max 1 capacity ≡ 0 = omega arith in rw (a, b) (ground arith)

ring_step :
    {A : Type 0} (capacity : ℕ) (xs : List A) (x : A)
    → push_ring capacity (drop (length xs - max 1 capacity) xs) x
      ≡ drop (length (xs ++ x ∷ []) - max 1 capacity) (xs ++ x ∷ [])
unfolding push_ring
ring_step capacity [] x = ring_step_empty capacity x
ring_step capacity (y ∷ xs) x =
    let ys = y ∷ xs in
    let m = max 1 capacity in
    let size = length-drop (length ys - m) ys in
    let grown = length-append ys (x ∷ []) in
    elim (Bool-cases (leb capacity (length (drop (length ys - m) ys)))) [
      | inl full ↦
          let next : length (ys ++ x ∷ []) - m ≡ suc (length ys - m) =
            ground (arith, size, grown) in
          rw (full, next)
            (rw (drop-append (suc (length ys - m)) ys (x ∷ []) (ground (arith, size)))
              (ap (λ rest. rest ++ x ∷ []) (drop-drop_one (length ys - m) ys)))
      | inr room ↦
          let now : length ys - m ≡ 0 = ground (arith, size) in
          let next : length (ys ++ x ∷ []) - m ≡ 0 = ground (arith, size, grown) in
          rw (room, next, now)
    ]

pub IsLogged-number_and_send :
    (event : ℕ → BoardEvent) (b : Board)
    → ((n : ℕ) → seq_of (event n) ≡ n)
    → IsLogged b
    → IsLogged (number_and_send event b)
unfolding number_and_send
IsLogged-number_and_send event b named h = record {
  numbered = numbered-append 0 b.sent _ h.numbered (omega (arith, named (b.seq + 1), h.counted));
  counted = omega (arith, length-append b.sent (event (b.seq + 1) ∷ []), h.counted);
  window = rw h.window (ring_step b.buffer_capacity b.sent (event (b.seq + 1)));
}

catch_up_from_lem :
    (n last_seq current_seq : ℕ) (es : List BoardEvent)
    → 0 < length es
    → IsNumberedFrom n es
    → catch_up_from es last_seq current_seq ≡ (
        if ltb last_seq n
        then CatchUpResult.reset current_seq
        else CatchUpResult.events (drop (last_seq - n) es))
unfolding catch_up_from
catch_up_from_lem n last_seq current_seq [] size h = absurd (omega arith)
catch_up_from_lem n last_seq current_seq (e ∷ es) size h =
    let test : ltb (last_seq + 1) (suc n) ≡ ltb last_seq n = ground arith in
    rw (missed_lem n last_seq (e ∷ es) h, h.0, test)

-- A client that has seen the events up to `last_seq` gets exactly those it lacks, as long as the
-- buffer still holds them all, and is told to start over otherwise.
pub catch_up_lem :
    (b : Board) (last_seq : ℕ)
    → IsLogged b
    → catch_up b last_seq ≡ (
        if ltb b.seq last_seq || ltb (max 1 b.buffer_capacity) (b.seq - last_seq)
        then CatchUpResult.reset b.seq
        else CatchUpResult.events (drop last_seq b.sent))
unfolding catch_up
catch_up_lem b last_seq h = elim (Bool-cases (ltb b.seq last_seq)) [
  | inl ahead ↦ rw ahead
  | inr known ↦ elim (Bool-cases (last_seq == b.seq)) [
    | inl same ↦
        let fits : ltb (max 1 b.buffer_capacity) (b.seq - last_seq) ≡ false = ground arith in
        rw (known, same, fits)
          (ap CatchUpResult.events (sym (drop_all last_seq b.sent (ground (arith, h.counted)))))
    | inr behind ↦
        let k = length b.sent - max 1 b.buffer_capacity in
        let size = length-drop k b.sent in
        let numbered = numbered-drop k 0 k b.sent (omega arith) h.numbered in
        let test : ltb last_seq k ≡ ltb (max 1 b.buffer_capacity) (b.seq - last_seq) =
          ground (arith, h.counted) in
        rw (known, behind, h.window)
          (rw
            (catch_up_from_lem k last_seq b.seq (drop k b.sent) (ground (arith, size, h.counted))
              numbered)
            (rw test (elim (Bool-cases (ltb (max 1 b.buffer_capacity) (b.seq - last_seq))) [
              | inl lost ↦ rw lost
              | inr kept ↦ rw kept (
                  ap CatchUpResult.events
                    (drop-drop (last_seq - k) k last_seq b.sent (ground (arith, h.counted))))
            ])))
  ]
]
