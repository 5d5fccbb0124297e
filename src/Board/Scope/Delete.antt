-- ===== src/Board/Scope/Delete.antt =====
-- src/store.rs: `delete_item` takes whole subtrees away, so that the board stays sound.
use sandboard.Prelude.{
  ℕ, ◌≡◌, ◌∙◌, ap, sym, refl, String, Option, none, some, List, [], ◌∷◌, true, false, arith, ◌==◌,
  ==_iff, Option-cases, Bool-cases, inl, inr, if◌then◌else◌,
}
use sandboard.Map
use sandboard.Map.{Map, nat_key, get-remove}
use sandboard.Map.Index.{members}
use sandboard.Model.State.{state_key}
use sandboard.Model.Item.{ItemId, WorkItem}
use sandboard.Board.State.{BoardState, remove_item, index_unlink_item}
use sandboard.Board.State.Indexes.{IsIndexed, remove_item-IsIndexed}
use sandboard.Board.Sound.{IsCard, IsForest, IsSound}
use sandboard.Board.Tree.{children_of_indexed}
use sandboard.Board.Moves.{spawn_delete, environment_of}
use sandboard.Board.Feed.{number_and_send, record_and_send}
use sandboard.Board.Scope.{
  has_id, subtree, remove_one, remove_all, without_blockers, unblock_all, delete_found, delete_item,
}
use sandboard.Board.Scope.Subtree.{has_id-contains, subtree_closed, IsClosedIn}
use sandboard.Board.Core.{Board, ◌>>=◌}

state_spawn_delete : (env : Option String) (b : Board) → (spawn_delete env b).state ≡ b.state
unfolding spawn_delete
state_spawn_delete none b = refl
state_spawn_delete (some env) b = refl

state_remove_one : (id : ItemId) (b : Board) → (remove_one id b).state ≡ (remove_item id b.state).1
unfolding remove_one
state_remove_one id b = state_spawn_delete (environment_of (remove_item id b.state).0) _

get-remove_item :
    (id c : ItemId) (s : BoardState)
    → Map.get (remove_item id s).1.items c ≡ (if id == c then none else Map.get s.items c)
unfolding remove_item index_unlink_item
get-remove_item id c s = elim (Option-cases (Map.get s.items id)) [
  | inl e ↦ elim (Bool-cases (id == c)) [
    | inl same ↦ let at : id ≡ c = (==_iff id c).0 same in rw (e, remove_item, same, ← at, e) refl
    | inr other ↦ rw (e, remove_item, other) refl
  ]
  | inr (it, e) ↦ rw (e, remove_item) (get-remove s.items id c)
]

next_id_remove_item : (id : ItemId) (s : BoardState) → (remove_item id s).1.next_id ≡ s.next_id
unfolding remove_item index_unlink_item
next_id_remove_item id s = elim (Option-cases (Map.get s.items id)) [
  | inl e ↦ rw (e, remove_item) refl
  | inr (it, e) ↦ rw (e, remove_item) refl
]

-- What is left of the cards once some are removed.
abbrev left : List ItemId → Map ItemId WorkItem → ItemId → Option WorkItem
left ids items c = if has_id c ids then none else Map.get items c

remove_all_lem :
    (ids : List ItemId) (b : Board)
    → IsIndexed b.state
    → IsIndexed (remove_all ids b).state
      × ((remove_all ids b).state.next_id ≡ b.state.next_id)
      × ((c : ItemId) → Map.get (remove_all ids b).state.items c ≡ left ids b.state.items c)
unfolding remove_all has_id
remove_all_lem [] b h = (h, refl, λ c. refl)
remove_all_lem (id ∷ ids) b h =
    let one = state_remove_one id b in
    let (indexed, next, items) =
      remove_all_lem ids (remove_one id b) (rw one (remove_item-IsIndexed id b.state h)) in
    (
      indexed,
      next ∙ ap (λ s. s.next_id) one ∙ next_id_remove_item id b.state,
      λ c.
          items c ∙ ap (λ s. left ids s.items c) one ∙ ground (arith, get-remove_item id c b.state),
    )

get-unblock_all :
    (gone : List ItemId) (items : Map ItemId WorkItem) (c : ItemId)
    → Map.get (unblock_all gone items) c
      ≡ elim (Map.get items c) [ none ↦ none | some it ↦ some (without_blockers gone it) ]
unfolding unblock_all Map.get
get-unblock_all gone [] c = refl
get-unblock_all gone ((k, it) ∷ rest) c = elim (Bool-cases (k == c)) [
  | inl same ↦ rw same refl
  | inr other ↦ rw other (get-unblock_all gone rest c)
]

-- A card that is left is one of before, but for its blockers.
left_from :
    (gone : List ItemId) (items kept : Map ItemId WorkItem) (c : ItemId) (it : WorkItem)
    → ((c : ItemId) → Map.get kept c ≡ left gone items c)
    → Map.get (unblock_all gone kept) c ≡ some it
    → (old : WorkItem) × (Map.get items c ≡ some old)
      × (has_id c gone ≡ false)
      × (it ≡ without_blockers gone old)
left_from gone items kept c it kept_lem found = elim (Option-cases (Map.get kept c)) [
  | inl e ↦ absurd (ground (arith, get-unblock_all gone kept c, found, e))
  | inr (old, e) ↦ (
    old,
    ground (arith, kept_lem c, e),
    ground (arith, kept_lem c, e),
    ground (arith, get-unblock_all gone kept c, found, e),
  )
]

left_to :
    (gone : List ItemId) (items kept : Map ItemId WorkItem) (c : ItemId) (old : WorkItem)
    → ((c : ItemId) → Map.get kept c ≡ left gone items c)
    → Map.get items c ≡ some old
    → has_id c gone ≡ false
    → Map.get (unblock_all gone kept) c ≡ some (without_blockers gone old)
left_to gone items kept c old kept_lem found stays =
    ground (arith, get-unblock_all gone kept c, kept_lem c, found, stays)

unblocked-IsCard :
    (gone : List ItemId) (it : WorkItem) → IsCard it → IsCard (without_blockers gone it)
unfolding without_blockers
unblocked-IsCard gone it h = record { unleased = h.unleased; at_rest = h.at_rest; trail = h.trail }

-- Taking away a set of cards that is closed under children.
remaining-IsForest :
    (gone : List ItemId) (s : BoardState) (kept : Map ItemId WorkItem)
    → IsClosedIn s gone []
    → ((c : ItemId) → Map.get kept c ≡ left gone s.items c)
    → IsSound s
    → IsForest (unblock_all gone kept) s.next_id
unfolding without_blockers children_of_indexed has_id
remaining-IsForest gone s kept closed kept_lem h = record {
  cards = λ c it e.
      let (old, found, _, same) = left_from gone s.items kept c it kept_lem e in
      rw same (unblocked-IsCard gone old (h.forest.cards c old found));
  flat = λ c p it e up.
      let (old, found, stays, same) = left_from gone s.items kept c it kept_lem e in
      let up' : old.parent ≡ some p = ground (arith, same, up) in
      let (q, there, top) = h.forest.flat c p old found up' in
      let child : has_id c (children_of_indexed s p) ≡ true =
        sym (has_id-contains c (members s.children_by_parent p))
        ∙ h.indexed.children p c
        ∙ ground (arith, found, up') in
      let p_stays : has_id p gone ≡ false = ground (arith, closed p c, child, stays) in
      (without_blockers gone q, left_to gone s.items kept p q kept_lem there p_stays, top);
  fresh = λ c it e.
      let (old, found, _, same) = left_from gone s.items kept c it kept_lem e in
      h.forest.fresh c old found;
}

remaining-IsIndexed :
    (gone : List ItemId) (s : BoardState)
    → IsIndexed s
    → IsIndexed (record s { items = unblock_all gone s.items })
unfolding without_blockers
remaining-IsIndexed gone s h = record {
  keyed = λ c it e. elim (Option-cases (Map.get s.items c)) [
    | inl missing ↦ absurd (ground (arith, get-unblock_all gone s.items c, e, missing))
    | inr (old, found) ↦
        ground (arith, get-unblock_all gone s.items c, e, found, h.keyed c old found)
  ];
  children = λ p c. ground (arith, get-unblock_all gone s.items c, h.children p c);
  states = λ st c. ground (arith, get-unblock_all gone s.items c, h.states st c);
}

delete_found-IsSound :
    (id : ItemId) (o : Option (List ItemId)) (b : Board)
    → ((out : List ItemId) → o ≡ some out → IsClosedIn b.state out [])
    → IsSound b.state
    → IsSound (delete_found id o b).state
unfolding delete_found number_and_send record_and_send
delete_found-IsSound id none b closed h = h
delete_found-IsSound id (some out) b closed h =
    let (indexed, next, items) = remove_all_lem out b h.indexed in
    let after = remaining-IsIndexed out (remove_all out b).state indexed in
    record {
      indexed = record { keyed = after.keyed; children = after.children; states = after.states };
      forest =
          rw next (
            remaining-IsForest out b.state (remove_all out b).state.items (closed out refl) items
              h);
    }

subtree_of_root :
    (rounds : ℕ) (id : ItemId) (s : BoardState) (out : List ItemId)
    → subtree rounds s (id ∷ []) [] ≡ some out
    → IsClosedIn s out []
unfolding has_id
subtree_of_root rounds id s out done =
    (subtree_closed rounds s (id ∷ []) [] out done (λ c d e. cc)).1

-- A deletion leaves a sound board sound, whatever the number of its rounds: no card is left under a
-- parent that is gone, and the indexes hold what is left.
pub delete_item-IsSound :
    (rounds : ℕ) (id : ItemId) (b : Board)
    → IsSound b.state
    → IsSound (delete_item rounds id b).1.state
unfolding delete_item ◌>>=◌
delete_item-IsSound rounds id b h = elim (Bool-cases (Map.contains_key b.state.items id)) [
  | inr missing ↦ rw (delete_item, missing) h
  | inl there ↦
      rw (delete_item, there)
        (delete_found-IsSound id (subtree rounds b.state (id ∷ []) []) b
          (λ out e. subtree_of_root rounds id b.state out e) h)
]
