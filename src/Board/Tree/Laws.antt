-- ===== src/Board/Tree/Laws.antt =====
-- src/store.rs: the reads over the tree against the cards, on a sound board.
use sandboard.Prelude.{
  ◌≡◌, ◌∙◌, ap, suc, ◌↔◌, ◌⊎◌, refl, none, some, List, [], ◌∷◌, Bool, true, false, ◌||◌, arith, ltb,
  length, keep, Option-cases, Bool-cases, inl, inr, ◌==◌, ==_self, ==_iff, if◌then◌else◌,
}
use sandboard.Map
use sandboard.Map.{Map, nat_key}
use sandboard.Map.Index.{members}
use sandboard.Map.Set.{contains}
use sandboard.Model.State.{State, state_eq_iff}
use sandboard.Model.Item.{ItemId, WorkItem}
use sandboard.Board.State.{BoardState, non_retired_child_count, is_live_child}
use sandboard.Board.Sound.{IsSound}
use sandboard.Board.Tree.{
  has_children, chain, chain_from, depth, depth_from, goal_of, first_or, parent_of,
}

chain_top :
    (s : BoardState) (id : ItemId) (it : WorkItem)
    → Map.get s.items id ≡ some it
    → it.parent ≡ none
    → (chain s id ≡ id ∷ []) × (depth s id ≡ 0)
unfolding chain chain_from depth depth_from parent_of
chain_top s id it found top =
    let up : parent_of (Map.get s.items id) ≡ none = rw found top in
    (ap (λ o. chain_from 32 s o (id ∷ [])) up, ap (λ o. depth_from 33 s o) up)

chain_child :
    (s : BoardState) (id p : ItemId) (it q : WorkItem)
    → Map.get s.items id ≡ some it
    → it.parent ≡ some p
    → Map.get s.items p ≡ some q
    → q.parent ≡ none
    → (chain s id ≡ p ∷ id ∷ []) × (depth s id ≡ 1)
unfolding chain chain_from depth depth_from parent_of
chain_child s id p it q found up there top =
    let one : parent_of (Map.get s.items id) ≡ some p = rw found up in
    let two : parent_of (Map.get s.items p) ≡ none = rw there top in
    (
      ap (λ o. chain_from 32 s o (id ∷ [])) one ∙ ap (λ o. chain_from 31 s o (p ∷ id ∷ [])) two,
      ap (λ o. depth_from 33 s o) one ∙ ap (λ o. suc (depth_from 32 s o)) two,
    )

-- On a sound board a card without a parent is its own goal, at depth 0, and a card with one has it as
-- its goal, at depth 1: its chain is the parent and itself.
pub chain-IsSound :
    (s : BoardState) (id : ItemId) (it : WorkItem)
    → IsSound s
    → Map.get s.items id ≡ some it
    → ((it.parent ≡ none) × (chain s id ≡ id ∷ []) × (goal_of s id ≡ id) × (depth s id ≡ 0))
      ⊎ ((p : ItemId) × (it.parent ≡ some p)
          × (chain s id ≡ p ∷ id ∷ [])
          × (goal_of s id ≡ p)
          × (depth s id ≡ 1))
unfolding goal_of first_or
chain-IsSound s id it h found = elim (Option-cases it.parent) [
  | inl top ↦ let (c, d) = chain_top s id it found top in inl (top, c, rw (goal_of, c) refl, d)
  | inr (p, up) ↦
      let (q, there, top) = h.forest.flat id p it found up in
      let (c, d) = chain_child s id p it q found up there top in
      inr (p, up, c, rw (goal_of, c) refl, d)
]

none_kept :
    (test : ItemId → Bool) (ids : List ItemId) (c : ItemId)
    → ltb 0 (length (keep test ids)) ≡ false
    → contains ids c ≡ true
    → test c ≡ false
unfolding contains
none_kept test [] c h e = ground arith
none_kept test (x ∷ ids) c h e = elim (Bool-cases (test x)) [
  | inl kept ↦ absurd (some_kept kept h)
  | inr gone ↦ elim (Bool-cases (x == c)) [
    | inl same ↦ let at : x ≡ c = (==_iff x c).0 same in rw (← at) gone
    | inr other ↦ none_kept test ids c (rw_left gone h) (rw_right other e)
  ]
]
  where
    some_kept :
        test x ≡ true
        → ltb 0 (length (if test x then x ∷ keep test ids else keep test ids)) ≡ false
        → ⊥
    some_kept kept k = ground (arith, kept, k)

    rw_left :
        test x ≡ false
        → ltb 0 (length (if test x then x ∷ keep test ids else keep test ids)) ≡ false
        → ltb 0 (length (keep test ids)) ≡ false
    rw_left gone k = ground (arith, gone, k)

    rw_right : (x == c) ≡ false → (x == c || contains ids c) ≡ true → contains ids c ≡ true
    rw_right other k = ground (arith, other, k)

all_dead :
    (test : ItemId → Bool) (ids : List ItemId)
    → ((c : ItemId) → contains ids c ≡ true → test c ≡ false)
    → ltb 0 (length (keep test ids)) ≡ false
unfolding contains
all_dead test [] h = refl
all_dead test (x ∷ ids) h =
    let dead : test x ≡ false = h x (rw (==_self x) refl) in
    rw dead (all_dead test ids (λ c e. h c (rw e (ground arith))))

-- On a sound board a card counts as a leaf exactly where each card that names it as its parent is
-- retired.
pub has_children-IsSound :
    (s : BoardState) (p : ItemId)
    → IsSound s
    → (has_children s p ≡ false) ↔ (
        (c : ItemId) (it : WorkItem)
        → Map.get s.items c ≡ some it
        → it.parent ≡ some p
        → it.state ≡ State.retired)
unfolding has_children non_retired_child_count is_live_child
has_children-IsSound s p h = (forth, back)
  where
    forth :
        has_children s p ≡ false
        → (c : ItemId) (it : WorkItem) → Map.get s.items c ≡ some it
        → it.parent ≡ some p
        → it.state ≡ State.retired
    forth leaf c it found up =
        let listed : contains (members s.children_by_parent p) c ≡ true =
          rw (h.indexed.children p c, found, up) (==_self p) in
        let dead =
          none_kept (λ cid. is_live_child (Map.get s.items cid)) (members s.children_by_parent p) c
            leaf listed in
        ground (arith, dead, found, state_eq_iff it.state State.retired)

    back :
        ((c : ItemId) (it : WorkItem)
          → Map.get s.items c ≡ some it
          → it.parent ≡ some p
          → it.state ≡ State.retired)
        → has_children s p ≡ false
    back dead =
        all_dead (λ cid. is_live_child (Map.get s.items cid)) (members s.children_by_parent p)
          (λ c listed. elim (Option-cases (Map.get s.items c)) [
            | inl e ↦ rw e refl
            | inr (it, e) ↦
                let up : it.parent ≡ some p = ground (arith, h.indexed.children p c, listed, e) in
                rw (e, dead c it e up) refl
          ])
