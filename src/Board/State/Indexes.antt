-- ===== src/Board/State/Indexes.antt =====
-- The indexes of `BoardState` against the items that they index.
use sandboard.Prelude.{
  ◌≡◌, refl, sym, Option, none, some, Bool, true, false, ◌&&◌, ◌||◌, not, arith, ◌==◌, ==_iff,
  ==_self, Option-cases, Bool-cases, inl, inr,
}
use sandboard.Map
use sandboard.Map.{Map, nat_key, get-insert, get-remove}
use sandboard.Map.Set.{Set, contains}
use sandboard.Map.Index.{members, unlink, contains-members-link, contains-members-unlink}
use sandboard.Model.State.{State, state_eq, state_eq_iff, state_key}
use sandboard.Model.Item.{ItemId, WorkItem}
use sandboard.Board.State.{
  BoardState, link_parent, unlink_parent, index_set_state, insert_item, remove_item,
}

abbrev pub is_id : Option ItemId → ItemId → Bool
is_id none p = false
is_id (some q) p = q == p

-- The item is there and has the parent `p`.
abbrev pub parent_is : Option WorkItem → ItemId → Bool
parent_is none p = false
parent_is (some it) p = is_id it.parent p

-- The item is there and in the state `st`.
abbrev pub state_is : Option WorkItem → State → Bool
state_is none st = false
state_is (some it) st = state_eq it.state st

-- The indexes hold exactly what a scan of the items would find.
pub record IsIndexed (s : BoardState) : Type 0 where
  pub keyed : (id : ItemId) (it : WorkItem) → Map.get s.items id ≡ some it → it.id ≡ id
  pub children :
      (p c : ItemId) → contains (members s.children_by_parent p) c ≡ parent_is (Map.get s.items c) p
  pub states :
      (st : State) (c : ItemId)
      → contains (members s.ids_by_state st) c ≡ state_is (Map.get s.items c) st

contains-link_parent :
    (m : Map ItemId (Set ItemId)) (po : Option ItemId) (id p c : ItemId)
    → contains (members (link_parent m po id) p) c
      ≡ (is_id po p && id == c || contains (members m p) c)
contains-link_parent m none id p c = refl
contains-link_parent m (some q) id p c = contains-members-link m q p id c

contains-unlink_parent :
    (m : Map ItemId (Set ItemId)) (po : Option ItemId) (id p c : ItemId)
    → contains (members (unlink_parent m po id) p) c
      ≡ (not (is_id po p && id == c) && contains (members m p) c)
contains-unlink_parent m none id p c = refl
contains-unlink_parent m (some q) id p c = contains-members-unlink m q p id c

-- Inserting a card under a new id keeps the indexes exact.
pub insert_item-IsIndexed :
    (item : WorkItem) (s : BoardState)
    → Map.get s.items item.id ≡ none
    → IsIndexed s
    → IsIndexed (insert_item item s)
unfolding insert_item
insert_item-IsIndexed item s fresh h = record {
  keyed = λ id it e. ground (arith, h.keyed id it, get-insert s.items item.id id item);
  children = λ p c.
      rw (contains-link_parent s.children_by_parent item.parent item.id p c)
        (ground (arith, h.children p c, get-insert s.items item.id c item));
  states = λ st c.
      rw (contains-members-link s.ids_by_state item.state st item.id c)
        (ground (arith, h.states st c, get-insert s.items item.id c item));
}

-- Removing a card keeps the indexes exact.
pub remove_item-IsIndexed :
    (id : ItemId) (s : BoardState) → IsIndexed s → IsIndexed (remove_item id s).1
unfolding remove_item
remove_item-IsIndexed id s h = elim (Option-cases (Map.get s.items id)) [
  | inl e ↦ rw (e, remove_item) h
  | inr (item, e) ↦
      rw (e, remove_item)
        (record {
          keyed = λ j it f. ground (arith, h.keyed j it, get-remove s.items id j);
          children = λ p c.
              rw (contains-unlink_parent s.children_by_parent item.parent item.id p c)
                (ground (arith, h.keyed id item e, h.children p c, get-remove s.items id c));
          states = λ st c.
              rw (contains-members-unlink s.ids_by_state item.state st item.id c)
                (ground (arith, h.keyed id item e, h.states st c, get-remove s.items id c));
        })
]

-- Write a card over the one of the same id.
abbrev pub put_item : ItemId → WorkItem → BoardState → BoardState
put_item id it s = record s { items = Map.insert s.items id it }

-- A change that keeps id, parent and state keeps the indexes exact.
pub put_item-IsIndexed :
    (id : ItemId) (old it : WorkItem) (s : BoardState)
    → Map.get s.items id ≡ some old
    → it.id ≡ old.id
    → it.parent ≡ old.parent
    → it.state ≡ old.state
    → IsIndexed s
    → IsIndexed (put_item id it s)
put_item-IsIndexed id old it s found same_id same_parent same_state h = record {
  keyed = λ j x e. ground (arith, h.keyed id old found, h.keyed j x, get-insert s.items id j it);
  children = λ p c. ground (arith, h.children p c, get-insert s.items id c it);
  states = λ st c. ground (arith, h.states st c, get-insert s.items id c it);
}

moved_here : (new old : Bool) → (new && true || (not (old && true) && old)) ≡ new
moved_here new old = ground arith

moved_elsewhere : (new old x y : Bool) → x ≡ y → (new && false || (not (old && false) && x)) ≡ y
moved_elsewhere new old x y h = ground arith

-- A change of the state, with `index_set_state` after it, keeps the indexes exact.
pub set_state-IsIndexed :
    (id : ItemId) (old it : WorkItem) (s : BoardState)
    → Map.get s.items id ≡ some old
    → it.id ≡ old.id
    → it.parent ≡ old.parent
    → IsIndexed s
    → IsIndexed (index_set_state id old.state it.state (put_item id it s))
unfolding index_set_state
set_state-IsIndexed id old it s found same_id same_parent h =
    elim (Bool-cases (state_eq old.state it.state)) [
      | inl e ↦ rw e (
          put_item-IsIndexed id old it s found same_id same_parent
            (sym ((state_eq_iff old.state it.state).0 e)) h)
      | inr e ↦ rw e (record {
        keyed =
            λ j x f. ground (arith, h.keyed id old found, h.keyed j x, get-insert s.items id j it);
        children = λ p c. ground (arith, h.children p c, get-insert s.items id c it);
        states = λ st c.
            rw (contains-members-link (unlink s.ids_by_state old.state id) it.state st id c)
              (rw (contains-members-unlink s.ids_by_state old.state st id c) (moved st c));
      })
    ]
  where
    moved :
        (st : State) (c : ItemId)
        → (state_eq it.state st && id == c
            || (not (state_eq old.state st && id == c) && contains (members s.ids_by_state st) c))
          ≡ state_is (Map.get (Map.insert s.items id it) c) st
    moved st c = elim (Bool-cases (id == c)) [
      | inl same ↦
          let e : id ≡ c = (==_iff id c).0 same in
          rw (same, get-insert, h.states st c, ← e, found, ==_self id)
            (moved_here (state_eq it.state st) (state_eq old.state st))
      | inr other ↦
          rw (other, get-insert, other)
            (moved_elsewhere (state_eq it.state st) (state_eq old.state st) _ _ (h.states st c))
    ]
