-- ===== src/Board/Scope/Subtree.antt =====
-- src/store.rs: the walk of `delete_item` finds a set of cards that is closed under children.
use sandboard.Prelude.{
  ℕ, zero, suc, ◌≡◌, ap, refl, some, List, [], ◌∷◌, ◌++◌, true, ◌||◌, arith, ◌==◌, ==_iff,
  Bool-cases, inl, inr,
}
use sandboard.Map.{nat_key}
use sandboard.Map.Set.{contains}
use sandboard.Model.Item.{ItemId}
use sandboard.Board.State.{BoardState}
use sandboard.Board.Tree.{children_of_indexed}
use sandboard.Board.Scope.{has_id, push_new, subtree}

pub has_id-append :
    (c : ItemId) (xs ys : List ItemId) → has_id c (xs ++ ys) ≡ (has_id c xs || has_id c ys)
unfolding has_id
has_id-append c [] ys = refl
has_id-append c (x ∷ xs) ys = ground (arith, has_id-append c xs ys)

pub has_id-contains : (c : ItemId) (xs : List ItemId) → contains xs c ≡ has_id c xs
unfolding has_id contains
has_id-contains c [] = refl
has_id-contains c (x ∷ xs) = ap (λ t. x == c || t) (has_id-contains c xs)

push_new_keeps :
    (c : ItemId) (kids known stack : List ItemId)
    → has_id c stack ≡ true
    → has_id c (push_new kids known stack) ≡ true
unfolding push_new has_id
push_new_keeps c [] known stack h = h
push_new_keeps c (k ∷ kids) known stack h = elim (Bool-cases (has_id k known || has_id k stack)) [
  | inl there ↦ rw there (push_new_keeps c kids known stack h)
  | inr new ↦ rw new (push_new_keeps c kids known (k ∷ stack) (ground (arith, h)))
]

push_new_adds :
    (c : ItemId) (kids known stack : List ItemId)
    → has_id c kids ≡ true
    → (has_id c known || has_id c (push_new kids known stack)) ≡ true
unfolding push_new has_id
push_new_adds c [] known stack h = ground arith
push_new_adds c (k ∷ kids) known stack h = elim (Bool-cases (k == c)) [
  | inr other ↦ elim (Bool-cases (has_id k known || has_id k stack)) [
    | inl there ↦ rw there (push_new_adds c kids known stack (ground (arith, h, other)))
    | inr new ↦ rw new (push_new_adds c kids known (k ∷ stack) (ground (arith, h, other)))
  ]
  | inl same ↦
      let at : k ≡ c = (==_iff k c).0 same in
      elim (Bool-cases (has_id k known || has_id k stack)) [
        | inl there ↦ rw there (elim (Bool-cases (has_id c known)) [
          | inl known' ↦ ground (arith, known')
          | inr unknown ↦
              ground (arith, push_new_keeps c kids known stack (ground (arith, at, there, unknown)))
        ])
        | inr new ↦
            rw new (ground (arith, push_new_keeps c kids known (k ∷ stack) (ground (arith, same))))
      ]
]

-- The children of what is in `xs` are in `xs` or in `ys`.
abbrev pub IsClosedIn : BoardState → List ItemId → List ItemId → Type 0
IsClosedIn s xs ys =
    (c d : ItemId)
    → has_id c xs ≡ true
    → has_id d (children_of_indexed s c) ≡ true
    → (has_id d xs || has_id d ys) ≡ true

next_closed :
    (s : BoardState) (cur : ItemId) (stack found : List ItemId)
    → IsClosedIn s found (cur ∷ stack)
    → IsClosedIn s
        (found ++ cur ∷ [])
        (push_new (children_of_indexed s cur) (found ++ cur ∷ []) stack)
unfolding has_id
next_closed s cur stack found h c d in_found child = elim (Bool-cases (has_id c found)) [
  | inl old ↦
      let before = h c d old child in
      elim (Bool-cases (has_id d stack)) [
        | inl waits ↦
            ground
              (arith, push_new_keeps d (children_of_indexed s cur) (found ++ cur ∷ []) stack waits)
        | inr gone ↦ ground (arith, before, gone, has_id-append d found (cur ∷ []))
      ]
  | inr new ↦
      let here : cur ≡ c = ground (arith, in_found, new, has_id-append c found (cur ∷ [])) in
      push_new_adds d (children_of_indexed s cur) (found ++ cur ∷ []) stack (rw here child)
]

-- What the walk has found at its end holds all that it started from, and is closed under children.
pub subtree_closed :
    (rounds : ℕ) (s : BoardState) (stack found out : List ItemId)
    → subtree rounds s stack found ≡ some out
    → IsClosedIn s found stack
    → ((c : ItemId) → (has_id c found || has_id c stack) ≡ true → has_id c out ≡ true)
      × IsClosedIn s out []
unfolding subtree has_id
subtree_closed zero s stack found out done h = cc
subtree_closed (suc rounds) s [] found out done h =
    let same : found ≡ out = cc in rw (← same) ((λ c e. ground (arith, e)), h)
subtree_closed (suc rounds) s (cur ∷ stack) found out done h =
    let found' = found ++ cur ∷ [] in
    let (all, closed) =
      subtree_closed rounds s (push_new (children_of_indexed s cur) found' stack) found' out done
        (next_closed s cur stack found h) in
    (
      (λ c e. all c (elim (Bool-cases (has_id c stack)) [
        | inl waits ↦
            ground (arith, push_new_keeps c (children_of_indexed s cur) found' stack waits)
        | inr other ↦ ground (arith, e, other, has_id-append c found (cur ∷ []))
      ])),
      closed,
    )
