-- ===== src/Socket/Connection/Queue.antt =====
-- src/ws.rs: the queue of a connection, as a function of the events that came into it.
use sandboard.Prelude.{
  ℕ, zero, suc, ◌-◌, ◌≤◌, ◌≡◌, refl, sym, ◌∙◌, ap, List, [], ◌∷◌, ◌++◌, true, false, leb, map,
  length, length-append, length-drop, drop, drop-append, drop-drop_one, arith, Bool-cases, inl, inr,
  if◌then◌else◌,
}
use sandboard.Board.Event.{BoardEvent}
use sandboard.Socket.Connection.{Received, channel_capacity, without_notice, broadcast}

pub map-append :
    {A B : Type 0} (f : A → B) (xs ys : List A) → map f (xs ++ ys) ≡ map f xs ++ map f ys
map-append f [] ys = refl
map-append f (x ∷ xs) ys = ap (λ rest. f x ∷ rest) (map-append f xs ys)

drop-map : {A B : Type 0} (f : A → B) (n : ℕ) (xs : List A) → drop n (map f xs) ≡ map f (drop n xs)
drop-map f zero xs = refl
drop-map f (suc n) [] = refl
drop-map f (suc n) (x ∷ xs) = drop-map f n xs

length-map : {A B : Type 0} (f : A → B) (xs : List A) → length (map f xs) ≡ length xs
length-map f [] = refl
length-map f (x ∷ xs) = ap suc (length-map f xs)

-- The events that fit, or the notice that some were lost and the latest that fit.
abbrev pub window : List BoardEvent → List Received
window events =
    if leb (length events) channel_capacity
    then map Received.msg events
    else Received.lagged ∷ map Received.msg (drop (length events - channel_capacity) events)

no_notice :
    (events : List BoardEvent) → without_notice (map Received.msg events) ≡ map Received.msg events
unfolding without_notice
no_notice [] = refl
no_notice (e ∷ events) = refl

held_lem :
    (events : List BoardEvent)
    → channel_capacity ≤ length events
    → without_notice (window events)
      ≡ map Received.msg (drop (length events - channel_capacity) events)
unfolding without_notice
held_lem events full = elim (Bool-cases (leb (length events) channel_capacity)) [
  | inl fits ↦
      let none_lost : length events - channel_capacity ≡ 0 = ground (arith, fits) in
      rw (fits, none_lost) (no_notice events)
  | inr lost ↦ rw lost refl
]

-- One more event.
pub broadcast-window :
    (event : BoardEvent) (events : List BoardEvent)
    → broadcast event (window events) ≡ window (events ++ event ∷ [])
unfolding broadcast
broadcast-window event events =
    let grown = length-append events (event ∷ []) in
    elim (Bool-cases (leb channel_capacity (length events))) [
      | inl full ↦
          let j = length events - channel_capacity in
          let some_there : channel_capacity ≤ length events = ground (arith, full) in
          let held = held_lem events some_there in
          let size : length (map Received.msg (drop j events)) ≡ channel_capacity =
            length-map Received.msg (drop j events)
            ∙ ground (arith, length-drop j events, some_there) in
          let still : leb channel_capacity (length (map Received.msg (drop j events))) ≡ true =
            ground (arith, size) in
          let over : leb (length (events ++ event ∷ [])) channel_capacity ≡ false =
            ground (arith, grown, some_there) in
          let next : length (events ++ event ∷ []) - channel_capacity ≡ suc j =
            omega (arith, grown, some_there) in
          let moved : drop 1 (map Received.msg (drop j events)) ++ Received.msg event ∷ []
              ≡ map Received.msg (drop (suc j) (events ++ event ∷ [])) =
            ap (λ rx. rx ++ Received.msg event ∷ [])
              (drop-map Received.msg 1 (drop j events)
                ∙ ap (map Received.msg) (drop-drop_one j events))
            ∙ sym (map-append Received.msg (drop (suc j) events) (event ∷ []))
            ∙ ap (map Received.msg)
                (sym (drop-append (suc j) events (event ∷ []) (omega (arith, some_there)))) in
          rw (held, still, over, next) (ap (λ rx. Received.lagged ∷ rx) moved)
      | inr room ↦
          let fits : leb (length events) channel_capacity ≡ true = ground (arith, room) in
          let size = length-map Received.msg events in
          let free : leb channel_capacity (length (map Received.msg events)) ≡ false =
            ground (arith, size, room) in
          let fits_still : leb (length (events ++ event ∷ [])) channel_capacity ≡ true =
            ground (arith, grown, room) in
          rw (fits, no_notice events, free, fits_still)
            (sym (map-append Received.msg events (event ∷ [])))
    ]
