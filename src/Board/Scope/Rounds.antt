-- ===== src/Board/Scope/Rounds.antt =====
-- src/store.rs: the walks of `cut_scope` and `unarchive_scope` end.
use sandboard.Prelude.{
  ℕ, zero, suc, ◌+◌, ◌<◌, ◌≡◌, ◌∙◌, ap, refl, String, Option, none, some, List, [], ◌∷◌, ◌++◌, true,
  ◌||◌, arith, length, ==_self, Option-cases, Bool-cases, false, inl, inr,
}
use sandboard.Prelude.Result.{ok, Result-cases}
use mathlib.Core.List.{reverse, reverse_aux}
use sandboard.Map
use sandboard.Map.{Map, nat_key}
use sandboard.Map.Index.{members}
use sandboard.Map.Set.{Set, contains}
use sandboard.Model.State.{State}
use sandboard.Model.Item.{ItemId, WorkItem}
use sandboard.Machine.{check}
use sandboard.Board.State.{BoardState, index_set_state}
use sandboard.Board.State.Indexes.{put_item}
use sandboard.Board.Sound.{IsSound}
use sandboard.Board.Tree.{children_of_indexed, has_children, unresolved_blockers}
use sandboard.Board.Feed.{emit, number_and_send, record_and_send}
use sandboard.Board.Transition.{enter, transition_card}
use sandboard.Board.Transition.Outcome.{
  transition_card_missing, transition_card_passed, transition_card_refused,
}
use sandboard.Board.Moves.{transition, finish, spawn_delete}
use sandboard.Board.Scope.{cut_loop, cut_scope, tell_cut, add_if, visit}
use sandboard.Board.Core.{Board, modify, ◌>>=◌, succeeds, is_ok}
use sandboard.Board.Core.Keeps.{Keeps, Keeps-modify, keeps_rules}
use sandboard.Board.Invariant.Closed.{Keeps-reread}

-- The index of children is `m`.
pub record HasIndex (m : Map ItemId (Set ItemId)) (b : Board) : Type 0 where
  pub same : b.state.children_by_parent ≡ m

index_kept :
    (id : ItemId) (source to : State) (s : BoardState)
    → (index_set_state id source to s).children_by_parent ≡ s.children_by_parent
unfolding index_set_state
index_kept id source to s = ground arith

module _ (m : Map ItemId (Set ItemId)) where
  Index-emit : {E : Type 0} (item : WorkItem) → Keeps {E = E} (HasIndex m) (modify (emit item))
  unfolding emit number_and_send record_and_send
  Index-emit item = Keeps-modify (emit item) (λ b h. record { same = h.same })

  spawn_delete-HasIndex :
      (env : Option String) (b : Board) → HasIndex m b → HasIndex m (spawn_delete env b)
  unfolding spawn_delete
  spawn_delete-HasIndex none b h = h
  spawn_delete-HasIndex (some env) b h = record { same = h.same }

  Index-spawn_delete :
      {E : Type 0} (env : Option String) → Keeps {E = E} (HasIndex m) (modify (spawn_delete env))
  Index-spawn_delete env = Keeps-modify (spawn_delete env) (spawn_delete-HasIndex env)

  Index-transition_card :
      (id : ItemId) (to : State) (by : String) (reason : Option String)
      → Keeps (HasIndex m) (transition_card id to by reason)
  Index-transition_card id to by reason = record {
    at = λ b h. elim (Option-cases (Map.get b.state.items id)) [
      | inl e ↦ rw (transition_card_missing id to by reason b e) h
      | inr (it, found) ↦
          elim (Result-cases
            (check it to (has_children b.state id) (unresolved_blockers b.state it))) [
              | inl (x, refused) ↦
                  rw (transition_card_refused id to by reason b it found x refused) h
              | inr (_, passed) ↦
                  rw (transition_card_passed id to by reason b it found passed) (record {
                    same =
                        index_kept id it.state (enter b.clock to by reason it).state
                          (put_item id (enter b.clock to by reason it) b.state)
                        ∙ h.same;
                  })
            ]
    ];
  }

  retire-HasIndex :
      (id : ItemId) (reason : Option String)
      → Keeps (HasIndex m) (transition id State.retired "human" reason)
  unfolding transition finish
  retire-HasIndex id reason =
      search (keeps_rules, Keeps-reread, Index-emit, Index-spawn_delete, Index-transition_card)
        depth 14

  -- A stack of cards without children is worked off in as many rounds as it has cards, and one more.
  cut_loop_ends :
      (rounds : ℕ) (reason : Option String) (stack touched : List ItemId) (b : Board)
      → HasIndex m b
      → ((c : ItemId) → contains stack c ≡ true → members m c ≡ [])
      → length stack < rounds
      → (out : List ItemId) × ((cut_loop rounds reason stack touched b).0 ≡ ok (some out))
  unfolding cut_loop ◌>>=◌ succeeds children_of_indexed contains
  cut_loop_ends zero reason stack touched b h leaf short = absurd (omega arith)
  cut_loop_ends (suc rounds) reason [] touched b h leaf short = (touched, refl)
  cut_loop_ends (suc rounds) reason (cur ∷ stack) touched b h leaf short =
      let kids : members b.state.children_by_parent cur ≡ [] =
        rw h.same (leaf cur (rw (==_self cur) refl)) in
      let after = (transition cur State.retired "human" reason b).1 in
      let (out, e) =
        cut_loop_ends rounds reason stack
          (add_if (is_ok (transition cur State.retired "human" reason b).0) cur touched) after
          ((retire-HasIndex cur reason).at b h) (λ c e. leaf c (rw e (ground arith)))
          (omega arith) in
      (out, rw (cut_loop, kids) e)

length-reverse_aux : (xs ys : List ItemId) → length (reverse_aux xs ys) ≡ length xs + length ys
length-reverse_aux [] ys = omega arith
length-reverse_aux (x ∷ xs) ys = omega (arith, length-reverse_aux xs (x ∷ ys))

contains-reverse_aux :
    (xs ys : List ItemId) (c : ItemId)
    → contains (reverse_aux xs ys) c ≡ (contains xs c || contains ys c)
unfolding contains
contains-reverse_aux [] ys c = refl
contains-reverse_aux (x ∷ xs) ys c = ground (arith, contains-reverse_aux xs (x ∷ ys) c)

append_nil : (xs : List ItemId) → xs ++ [] ≡ xs
append_nil [] = refl
append_nil (x ∷ xs) = ap (λ ys. x ∷ ys) (append_nil xs)

no_members : (xs : Set ItemId) → ((d : ItemId) → contains xs d ≡ false) → xs ≡ []
unfolding contains
no_members [] h = refl
no_members (x ∷ xs) h = absurd (ground (arith, h x))

-- On a sound board the children of a card have no children.
child_is_leaf :
    (s : BoardState) (id c : ItemId)
    → IsSound s
    → contains (members s.children_by_parent id) c ≡ true
    → members s.children_by_parent c ≡ []
child_is_leaf s id c h listed = no_members (members s.children_by_parent c) (λ d.
    elim (Option-cases (Map.get s.items d)) [
      | inl e ↦ h.indexed.children c d ∙ rw e refl
      | inr (x, e) ↦ elim (Bool-cases (contains (members s.children_by_parent c) d)) [
        | inr no_child ↦ no_child
        | inl child ↦
            let up : x.parent ≡ some c = ground (arith, h.indexed.children c d, child, e) in
            let (q, there, top) = h.forest.flat d c x e up in
            absurd (ground (arith, h.indexed.children id c, listed, there, top))
      ]
    ])

tell_cut_done :
    (touched : Option (List ItemId)) (id : ItemId) (o : Option WorkItem) (b : Board)
    → (tell_cut touched id o b).0 ≡ ok tt
unfolding tell_cut ◌>>=◌
tell_cut_done none id o b = refl
tell_cut_done (some touched) id none b = refl
tell_cut_done (some touched) id (some t) b = refl

-- The walk over the card and its children.
cut_loop_root :
    (rounds : ℕ) (id : ItemId) (reason : Option String) (b : Board)
    → IsSound b.state
    → length (children_of_indexed b.state id) + 1 < rounds
    → (out : List ItemId) × ((cut_loop rounds reason (id ∷ []) [] b).0 ≡ ok (some out))
unfolding cut_loop ◌>>=◌ succeeds children_of_indexed contains
cut_loop_root zero id reason b h enough = absurd (omega arith)
cut_loop_root (suc rounds) id reason b h enough =
    let kids = members b.state.children_by_parent id in
    let stack : reverse kids ++ [] ≡ reverse kids = append_nil (reverse kids) in
    let (out, e) =
      cut_loop_ends b.state.children_by_parent rounds reason (reverse kids)
        (add_if (is_ok (transition id State.retired "human" reason b).0) id [])
        (transition id State.retired "human" reason b).1
        ((retire-HasIndex b.state.children_by_parent id reason).at b (record { same = refl }))
        (λ c e. child_is_leaf b.state id c h (ground (arith, e, contains-reverse_aux kids [] c)))
        (omega (arith, length-reverse_aux kids [])) in
    (out, rw stack e)

-- On a sound board `cut_scope` ends with a result, and without an error, where it has at least two
-- rounds more than the card has children.
pub cut_scope_ends :
    (rounds : ℕ) (id : ItemId) (reason : Option String) (b : Board)
    → IsSound b.state
    → length (children_of_indexed b.state id) + 1 < rounds
    → (out : List ItemId) × ((cut_scope rounds id reason b).0 ≡ ok (some out))
unfolding cut_scope ◌>>=◌
cut_scope_ends rounds id reason b h enough =
    let (out, e) = cut_loop_root rounds id reason b h enough in
    (out, rw (cut_scope, e, tell_cut_done) refl)

visit_leaves :
    (rounds : ℕ) (s : BoardState) (stack order : List ItemId)
    → ((c : ItemId) → contains stack c ≡ true → children_of_indexed s c ≡ [])
    → length stack < rounds
    → visit rounds s stack order ≡ some (reverse_aux stack order)
unfolding visit contains
visit_leaves zero s stack order leaf short = absurd (omega arith)
visit_leaves (suc rounds) s [] order leaf short = refl
visit_leaves (suc rounds) s (cur ∷ stack) order leaf short =
    rw (leaf cur (rw (==_self cur) refl)) (
      visit_leaves rounds s stack (cur ∷ order) (λ c e. leaf c (rw e (ground arith))) (omega arith))

reverse_aux-reverse_aux :
    (xs ys zs : List ItemId) → reverse_aux (reverse_aux xs ys) zs ≡ reverse_aux ys (xs ++ zs)
reverse_aux-reverse_aux [] ys zs = refl
reverse_aux-reverse_aux (x ∷ xs) ys zs = reverse_aux-reverse_aux xs (x ∷ ys) zs

-- On a sound board the walk of `unarchive_scope` lists the children of the card, in the order of the
-- index, and the card itself last, where it has at least two rounds more than there are children.
pub visit_lem :
    (rounds : ℕ) (id : ItemId) (s : BoardState)
    → IsSound s
    → length (children_of_indexed s id) + 1 < rounds
    → visit rounds s (id ∷ []) [] ≡ some (children_of_indexed s id ++ id ∷ [])
unfolding visit children_of_indexed contains
visit_lem zero id s h enough = absurd (omega arith)
visit_lem (suc rounds) id s h enough =
    let kids = members s.children_by_parent id in
    rw (append_nil (reverse kids)) (
      visit_leaves rounds s (reverse kids) (id ∷ [])
        (λ c e. child_is_leaf s id c h (ground (arith, e, contains-reverse_aux kids [] c)))
        (omega (arith, length-reverse_aux kids []))
      ∙ ap some (reverse_aux-reverse_aux kids [] (id ∷ [])))
