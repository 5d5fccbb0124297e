-- ===== src/Board/Kept/Cards.antt =====
-- The soundness of the cards survives each primitive write.
use sandboard.Prelude.{
  ℕ, ◌+◌, ◌≡◌, refl, String, Option, none, some, Bool, arith, Option-cases, inl, inr,
}
use sandboard.Prelude.Result.{Result, ok, Result-cases}
use sandboard.Map
use sandboard.Map.{Map, nat_key, get-insert, get-insert_cases, get-empty}
use sandboard.Map.Index.{members}
use sandboard.Map.Set.{contains}
use sandboard.Schema.{Schema}
use sandboard.Model.State.{State, is_terminal}
use sandboard.Model.Item.{ItemId, WorkItem, Origin, new_item}
use sandboard.Board.State.{BoardState, insert_item, index_link_item, empty_state}
use sandboard.Board.State.Indexes.{insert_item-IsIndexed}
use sandboard.Board.Feed.{number_and_send, record_and_send, emit}
use sandboard.Board.Transition.{transition_card, change_card, store_back}
use sandboard.Board.Create.{check_parent, check_top, fresh_card, insert_new, create_under}
use sandboard.Board.Sound.{IsCard, IsForest, IsSound, put_item-IsSound, transition_locked-IsSound}
use sandboard.Board.Core.{Board, new_board, ◌>>=◌}
use sandboard.Board.Invariant.Closed.{Closed, Rewrites}

-- A card of `new_item` has just been drafted.
fresh-IsCard :
    (b : Board) (parent : Option ItemId) (title intent : String) (dod : Option String)
    (origin : Origin) (above_line : Bool) (capability : Option String)
    → IsCard (fresh_card b parent title intent dod origin above_line capability)
unfolding fresh_card new_item is_terminal
fresh-IsCard b parent title intent dod origin above_line capability = record {
  unleased = λ _. (refl, refl);
  at_rest = λ e. ground arith;
  trail = refl;
}

-- A parent that was admitted is a Project on the board.
admitted_parent :
    (s : BoardState) (p : ItemId)
    → check_parent s (some p) ≡ ok tt
    → (q : WorkItem) × (Map.get s.items p ≡ some q) × (q.parent ≡ none)
unfolding check_parent check_top
admitted_parent s p h = elim (Option-cases (Map.get s.items p)) [
  | inl e ↦ ground (arith, e)
  | inr (q, e) ↦ (q, e, ground (arith, e))
]

-- A card under the next id, with an admitted parent.
insert_fresh-IsForest :
    (s : BoardState) (it : WorkItem)
    → it.id ≡ s.next_id
    → IsCard it
    → check_parent s it.parent ≡ ok tt
    → IsForest s.items s.next_id
    → IsForest (Map.insert s.items it.id it) (s.next_id + 1)
insert_fresh-IsForest s it new card admitted h = record {
  cards = λ j x e. elim (get-insert_cases s.items it.id j it x e) [
    | inl (_, same) ↦ rw (← same) card
    | inr before ↦ h.cards j x before
  ];
  flat = λ j p x e up. elim (get-insert_cases s.items it.id j it x e) [
    | inl (_, same) ↦
        let at : it.parent ≡ some p = cc in
        let (q, there, top) = admitted_parent s p (rw (← at) admitted) in kept p q there top
    | inr before ↦ let (q, there, top) = h.flat j p x before up in kept p q there top
  ];
  fresh = λ j x e. elim (get-insert_cases s.items it.id j it x e) [
    | inl (here, _) ↦ omega (arith, here, new)
    | inr before ↦ omega (arith, h.fresh j x before)
  ];
}
  where
    kept :
        (p : ItemId) (q : WorkItem)
        → Map.get s.items p ≡ some q
        → q.parent ≡ none
        → (r : WorkItem) × (Map.get (Map.insert s.items it.id it) p ≡ some r) × (r.parent ≡ none)
    kept p q there top =
        (q, ground (arith, get-insert s.items it.id p it, h.fresh p q there, new), top)

pub unused_next : (s : BoardState) → IsForest s.items s.next_id → Map.get s.items s.next_id ≡ none
unused_next s h = elim (Option-cases (Map.get s.items s.next_id)) [
  | inl e ↦ e
  | inr (it, e) ↦ absurd (omega (arith, h.fresh s.next_id it e))
]

pub insert_fresh-IsSound :
    (s : BoardState) (it : WorkItem)
    → it.id ≡ s.next_id
    → IsCard it
    → check_parent s it.parent ≡ ok tt
    → IsSound s
    → IsSound (insert_item it (record s { next_id = s.next_id + 1 }))
unfolding insert_item index_link_item
insert_fresh-IsSound s it new card admitted h = record {
  indexed =
      insert_item-IsIndexed it (record s { next_id = s.next_id + 1 })
        (rw new (unused_next s h.forest))
        (record {
          keyed = h.indexed.keyed;
          children = h.indexed.children;
          states = h.indexed.states;
        });
  forest = insert_fresh-IsForest s it new card admitted h.forest;
}

create_under-IsSound :
    (parent : Option ItemId) (title intent : String) (dod : Option String) (origin : Origin)
    (above_line : Bool) (capability : Option String) (b : Board)
    → IsSound b.state
    → IsSound (create_under parent title intent dod origin above_line capability b).1.state
unfolding create_under insert_new fresh_card new_item emit number_and_send record_and_send ◌>>=◌
create_under-IsSound parent title intent dod origin above_line capability b h =
    elim (Result-cases (check_parent b.state parent)) [
      | inl (e, refused) ↦ rw refused h
      | inr (_, admitted) ↦ rw admitted (
          insert_fresh-IsSound b.state
            (fresh_card b parent title intent dod origin above_line capability) (fresh_id b)
            (fresh-IsCard b parent title intent dod origin above_line capability)
            (fresh_parent b admitted) h)
    ]
  where
    fresh_id :
        (b : Board)
        → (fresh_card b parent title intent dod origin above_line capability).id ≡ b.state.next_id
    fresh_id b = refl

    fresh_parent :
        (b : Board)
        → check_parent b.state parent ≡ ok tt
        → check_parent b.state
            (fresh_card b parent title intent dod origin above_line capability).parent
          ≡ ok tt
    fresh_parent b e = e

change_card-IsSound :
    {E : Type 0} (missing : E) (id : ItemId) (f : Board → WorkItem → Result E WorkItem) (b : Board)
    → Rewrites id f b
    → IsSound b.state
    → IsSound (change_card missing id f b).1.state
unfolding change_card store_back
change_card-IsSound missing id f b writes h = elim (Option-cases (Map.get b.state.items id)) [
  | inl e ↦ rw (e, change_card) h
  | inr (old, found) ↦ elim (Result-cases (f b old)) [
    | inl (e, refused) ↦ rw (found, change_card, refused) h
    | inr (it, written) ↦
        let v = writes old it found (h.forest.cards id old found) written in
        rw (found, change_card, written)
          (put_item-IsSound id old it b.state found v.same_id v.same_parent v.same_state v.card h)
  ]
]

transition_card-IsSound :
    (id : ItemId) (to : State) (by : String) (reason : Option String) (b : Board)
    → IsSound b.state
    → IsSound (transition_card id to by reason b).1.state
unfolding transition_card
transition_card-IsSound id to by reason b h =
    transition_locked-IsSound b.clock id to by reason b.state h

pub IsSound-Closed : Closed (λ b. IsSound b.state)
unfolding number_and_send record_and_send
IsSound-Closed = record {
  sent = λ event b named h. h;
  dirtied = λ d b h. h;
  narrated = λ lines b h. record {
    indexed = record {
      keyed = h.indexed.keyed;
      children = h.indexed.children;
      states = h.indexed.states;
    };
    forest = h.forest;
  };
  spawned = λ envs b h. h;
  ticked = λ now b h. h;
  noted = λ logs b h. h;
  seated = λ session b h. record {
    indexed = record {
      keyed = h.indexed.keyed;
      children = h.indexed.children;
      states = h.indexed.states;
    };
    forest = h.forest;
  };
  moved = λ id to by reason. record { at = transition_card-IsSound id to by reason };
  changed = change_card-IsSound;
  created = λ parent title intent dod origin above_line capability. record {
    at = create_under-IsSound parent title intent dod origin above_line capability;
  };
}

-- An empty board is sound.
pub new_board-IsSound : (schema : Schema) (now : ℕ) → IsSound (new_board schema now).state
unfolding new_board empty_state Map.get members contains
new_board-IsSound schema now = record {
  indexed = record {
    keyed = λ id it e. ground (arith, e);
    children = λ p c. refl;
    states = λ st c. refl;
  };
  forest = record {
    cards = λ id it e. ground (arith, e);
    flat = λ id p it e up. ground (arith, e);
    fresh = λ id it e. ground (arith, e);
  };
}
