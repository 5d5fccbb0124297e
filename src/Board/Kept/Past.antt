-- ===== src/Board/Kept/Past.antt =====
-- What happened to a card stays in its history, and no card leaves the board, through each primitive
-- write.
use sandboard.Prelude.{
  ℕ, ◌≡◌, refl, String, Option, none, some, List, [], ◌∷◌, ◌++◌, Bool, arith, Option-cases,
  Bool-cases, inl, inr, ◌==◌,
}
use sandboard.Prelude.Result.{Result, ok, err, Result-cases}
use sandboard.Map
use sandboard.Map.{Map, nat_key, get-insert, get-insert_cases}
use sandboard.Model.State.{State}
use sandboard.Model.Item.{ItemId, WorkItem, Origin, Transition, new_item}
use sandboard.Board.State.{BoardState, insert_item, index_link_item}
use sandboard.Board.State.Indexes.{put_item}
use sandboard.Board.Sound.{IsSound, items-index_set_state}
use sandboard.Board.Feed.{number_and_send, record_and_send, emit}
use sandboard.Machine.{TransitionError}
use sandboard.Board.Transition.{
  enter, commit, transition_locked, transition_card, change_card, store_back,
}
use sandboard.Board.Create.{check_parent, fresh_card, insert_new, create_under}
use sandboard.Board.Core.{Board, ◌>>=◌}
use sandboard.Board.Invariant.Closed.{Closed, Rewrites}
use sandboard.Board.Kept.Cards.{IsSound-Closed, unused_next}

-- `now` is the card `it` at a later time.
pub record Continues (it now : WorkItem) : Type 0 where
  pub same_parent : now.parent ≡ it.parent
  pub later : List Transition
  pub history : now.history ≡ it.history ++ later

-- Every card of `past` is among `items`, at a later time.
abbrev pub Remembers : Map ItemId WorkItem → Map ItemId WorkItem → Type 0
Remembers past items =
    (id : ItemId) (it : WorkItem)
    → Map.get past id ≡ some it
    → (now : WorkItem) × (Map.get items id ≡ some now) × Continues it now

pub append_nil : {A : Type 0} (xs : List A) → xs ≡ xs ++ []
append_nil [] = refl
append_nil (x ∷ xs) = rw (← append_nil xs) refl

pub append_assoc : {A : Type 0} (xs ys zs : List A) → (xs ++ ys) ++ zs ≡ xs ++ (ys ++ zs)
append_assoc [] ys zs = refl
append_assoc (x ∷ xs) ys zs = rw (append_assoc xs ys zs) refl

pub Continues-refl : (it : WorkItem) → Continues it it
Continues-refl it = record { same_parent = refl; later = []; history = append_nil it.history }

pub Continues-trans : (a b c : WorkItem) → Continues a b → Continues b c → Continues a c
Continues-trans a b c p q = record {
  same_parent = rw (q.same_parent, p.same_parent) refl;
  later = p.later ++ q.later;
  history = rw (q.history, p.history) (append_assoc a.history p.later q.later);
}

-- Writing a later version of a card over it.
Remembers-over :
    (past items : Map ItemId WorkItem) (id : ItemId) (old it : WorkItem)
    → Map.get items id ≡ some old
    → Continues old it
    → Remembers past items
    → Remembers past (Map.insert items id it)
Remembers-over past items id old it found on h j x e =
    let (now, there, c) = h j x e in
    elim (Bool-cases (id == j)) [
      | inl same ↦
          let at : now ≡ old = ground (arith, found, there, same) in
          (it, ground (arith, get-insert items id j it), Continues-trans x old it (rw (← at) c) on)
      | inr other ↦ (now, ground (arith, get-insert items id j it), c)
    ]

-- A card under an unused id.
Remembers-new :
    (past items : Map ItemId WorkItem) (id : ItemId) (it : WorkItem)
    → Map.get items id ≡ none
    → Remembers past items
    → Remembers past (Map.insert items id it)
Remembers-new past items id it unused h j x e =
    let (now, there, c) = h j x e in
    (now, ground (arith, get-insert items id j it, unused, there), c)

enter-Continues :
    (now : ℕ) (to : State) (by : String) (reason : Option String) (it : WorkItem)
    → Continues it (enter now to by reason it)
unfolding enter
enter-Continues now to by reason it = record {
  same_parent = refl;
  later = record { at = now; source = it.state; to = to; by = by; reason = reason } ∷ [];
  history = refl;
}

commit-Remembers :
    (past : Map ItemId WorkItem) (r : Result TransitionError Unit) (id : ItemId)
    (item moved : WorkItem) (s : BoardState)
    → Map.get s.items id ≡ some item
    → Continues item moved
    → Remembers past s.items
    → Remembers past (commit r id item moved s).1.items
unfolding commit
commit-Remembers past (err e) id item moved s found on h = h
commit-Remembers past (ok u) id item moved s found on h =
    rw (items-index_set_state id item.state moved.state (put_item id moved s)).0
      (Remembers-over past s.items id item moved found on h)

transition_card-Remembers :
    (past : Map ItemId WorkItem) (id : ItemId) (to : State) (by : String) (reason : Option String)
    (b : Board)
    → Remembers past b.state.items
    → Remembers past (transition_card id to by reason b).1.state.items
unfolding transition_card transition_locked
transition_card-Remembers past id to by reason b h =
    elim (Option-cases (Map.get b.state.items id)) [
      | inl e ↦ rw (e, transition_card, transition_locked) h
      | inr (item, e) ↦
          rw (e, transition_card, transition_locked)
            (commit-Remembers past _ id item _ b.state e (enter-Continues b.clock to by reason item)
              h)
    ]

change_card-Remembers :
    {E : Type 0} (past : Map ItemId WorkItem) (missing : E) (id : ItemId)
    (f : Board → WorkItem → Result E WorkItem) (b : Board)
    → Rewrites id f b
    → IsSound b.state
    → Remembers past b.state.items
    → Remembers past (change_card missing id f b).1.state.items
unfolding change_card store_back
change_card-Remembers past missing id f b writes sound h =
    elim (Option-cases (Map.get b.state.items id)) [
      | inl e ↦ rw (e, change_card) h
      | inr (old, found) ↦ elim (Result-cases (f b old)) [
        | inl (e, refused) ↦ rw (found, change_card, refused) h
        | inr (it, written) ↦
            let v = writes old it found (sound.forest.cards id old found) written in
            rw (found, change_card, written)
              (Remembers-over past b.state.items id old it found
                (record {
                  same_parent = v.same_parent;
                  later = [];
                  history = rw v.same_history (append_nil old.history);
                })
                h)
      ]
    ]

create_under-Remembers :
    (past : Map ItemId WorkItem) (parent : Option ItemId) (title intent : String)
    (dod : Option String) (origin : Origin) (above_line : Bool) (capability : Option String)
    (b : Board)
    → IsSound b.state
    → Remembers past b.state.items
    → Remembers past
        (create_under parent title intent dod origin above_line capability b).1.state.items
unfolding create_under insert_new fresh_card new_item insert_item index_link_item emit
    number_and_send record_and_send ◌>>=◌
create_under-Remembers past parent title intent dod origin above_line capability b sound h =
    elim (Result-cases (check_parent b.state parent)) [
      | inl (e, refused) ↦ rw refused h
      | inr (_, admitted) ↦
          rw admitted (
            Remembers-new past b.state.items b.state.next_id _ (unused_next b.state sound.forest) h)
    ]

-- The board is sound and remembers the cards of `past`.
pub record IsAfter (past : Map ItemId WorkItem) (b : Board) : Type 0 where
  pub sound : IsSound b.state
  pub remembers : Remembers past b.state.items

pub IsAfter-Closed : (past : Map ItemId WorkItem) → Closed (IsAfter past)
unfolding number_and_send record_and_send
IsAfter-Closed past =
    let c = IsSound-Closed in
    record {
      sent = λ event b named h. record { sound = h.sound; remembers = h.remembers };
      dirtied = λ d b h. record { sound = h.sound; remembers = h.remembers };
      narrated =
          λ lines b h. record { sound = c.narrated lines b h.sound; remembers = h.remembers };
      spawned = λ envs b h. record { sound = h.sound; remembers = h.remembers };
      ticked = λ now b h. record { sound = h.sound; remembers = h.remembers };
      noted = λ logs b h. record { sound = h.sound; remembers = h.remembers };
      seated =
          λ session b h. record { sound = c.seated session b h.sound; remembers = h.remembers };
      moved = λ id to by reason. record {
        at = λ b h. record {
          sound = (c.moved id to by reason).at b h.sound;
          remembers = transition_card-Remembers past id to by reason b h.remembers;
        };
      };
      changed = λ missing id f b writes h. record {
        sound = c.changed missing id f b writes h.sound;
        remembers = change_card-Remembers past missing id f b writes h.sound h.remembers;
      };
      created = λ parent title intent dod origin above_line capability. record {
        at = λ b h. record {
          sound = (c.created parent title intent dod origin above_line capability).at b h.sound;
          remembers =
              create_under-Remembers past parent title intent dod origin above_line capability b
                h.sound h.remembers;
        };
      };
    }
