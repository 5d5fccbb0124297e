-- ===== src/Board/Dispatch/Order.antt =====
-- src/store.rs: which cards the queue and the backlog list, and in what order.
use sandboard.Prelude.{
  ℕ, ◌≤◌, ◌≡◌, ◌↔◌, ◌∙◌, ap, sym, refl, true, String, Option, none, some, List, [], ◌∷◌, Bool,
  false, not, ◌&&◌, ◌||◌, arith, any, keep, leb, ◌==◌, ==_iff, Bool-cases, Option-cases, inl, inr,
  All,
}
use sandboard.Map
use sandboard.Map.{nat_key}
use sandboard.Map.Index.{members}
use sandboard.Map.Set.{contains}
use sandboard.Model.State.{State, state_key, state_eq_iff}
use sandboard.Model.Item.{ItemId, WorkItem}
use sandboard.Board.State.{BoardState}
use sandboard.Board.State.Indexes.{state_is}
use sandboard.Board.Sound.{IsSound}
use sandboard.Board.Tree.{populate_blockers}
use sandboard.Board.Dispatch.{
  cards_in, serves, is_ready, with_all_blockers, list_backlog, insert_by_entry, sort_by_entry,
  list_awaiting_dispatch,
}
use sandboard.Board.Dispatch.Ready.{IsReady, IsServed, is_ready_iff, serves_iff}
use sandboard.Board.Core.{Board}

-- Each card entered its state no later than those behind it.
abbrev pub IsByEntry : List WorkItem → Type 0
IsByEntry [] = Unit
IsByEntry (it ∷ rest) = All (λ x. it.entered_state_at ≤ x.entered_state_at) rest × IsByEntry rest

All-insert :
    (bound : ℕ) (it : WorkItem) (xs : List WorkItem)
    → bound ≤ it.entered_state_at
    → All (λ x. bound ≤ x.entered_state_at) xs
    → All (λ x. bound ≤ x.entered_state_at) (insert_by_entry it xs)
unfolding insert_by_entry
All-insert bound it [] h hs = (h, tt)
All-insert bound it (x ∷ xs) h hs = elim (Bool-cases (leb it.entered_state_at x.entered_state_at)) [
  | inl before ↦ rw before (h, hs)
  | inr after ↦ rw after (hs.0, All-insert bound it xs h hs.1)
]

All-weaken :
    (a b : ℕ) (xs : List WorkItem)
    → a ≤ b
    → All (λ x. b ≤ x.entered_state_at) xs
    → All (λ x. a ≤ x.entered_state_at) xs
All-weaken a b [] h hs = tt
All-weaken a b (x ∷ xs) h hs = (omega (arith, hs.0), All-weaken a b xs h hs.1)

insert-IsByEntry :
    (it : WorkItem) (xs : List WorkItem) → IsByEntry xs → IsByEntry (insert_by_entry it xs)
unfolding insert_by_entry
insert-IsByEntry it [] h = (tt, tt)
insert-IsByEntry it (x ∷ xs) h = elim (Bool-cases (leb it.entered_state_at x.entered_state_at)) [
  | inl before ↦
      let le : it.entered_state_at ≤ x.entered_state_at = ground (arith, before) in
      rw before ((le, All-weaken it.entered_state_at x.entered_state_at xs le h.0), h)
  | inr after ↦
      let le : x.entered_state_at ≤ it.entered_state_at = ground (arith, after) in
      rw after (All-insert x.entered_state_at it xs le h.0, insert-IsByEntry it xs h.1)
]

sort-IsByEntry : (xs : List WorkItem) → IsByEntry (sort_by_entry xs)
unfolding sort_by_entry
sort-IsByEntry [] = tt
sort-IsByEntry (x ∷ xs) = insert-IsByEntry x (sort_by_entry xs) (sort-IsByEntry xs)

any-insert :
    (test : WorkItem → Bool) (it : WorkItem) (xs : List WorkItem)
    → any test (insert_by_entry it xs) ≡ (test it || any test xs)
unfolding insert_by_entry
any-insert test it [] = refl
any-insert test it (x ∷ xs) = ground (arith, any-insert test it xs)

any-sort : (test : WorkItem → Bool) (xs : List WorkItem) → any test (sort_by_entry xs) ≡ any test xs
unfolding sort_by_entry
any-sort test [] = refl
any-sort test (x ∷ xs) =
    any-insert test x (sort_by_entry xs) ∙ ap (λ t. test x || t) (any-sort test xs)

abbrev pub passes : (WorkItem → Bool) → Option WorkItem → Bool
passes test none = false
passes test (some it) = test it

-- The list holds a card with this id.
abbrev pub lists : List WorkItem → ItemId → Bool
lists xs c = any (λ it. it.id == c) xs

cards_in_missing :
    (s : BoardState) (id : ItemId) (ids : List ItemId)
    → Map.get s.items id ≡ none
    → cards_in s (id ∷ ids) ≡ cards_in s ids
unfolding cards_in
cards_in_missing s id ids e = rw (cards_in, e) refl

cards_in_found :
    (s : BoardState) (id : ItemId) (ids : List ItemId) (it : WorkItem)
    → Map.get s.items id ≡ some it
    → cards_in s (id ∷ ids) ≡ it ∷ cards_in s ids
unfolding cards_in
cards_in_found s id ids it e = rw (cards_in, e) refl

-- One more card in the index: the list gains it where it is there and passes.
step :
    (test : WorkItem → Bool) (id c : ItemId) (o : Option WorkItem) (it : WorkItem)
    (rest : List WorkItem) (known : Bool)
    → o ≡ some it
    → it.id ≡ id
    → lists (keep test rest) c ≡ (known && passes test o)
    → id ≡ c
    → lists (keep test (it ∷ rest)) c ≡ ((id == c || known) && passes test o)
step test id c o it rest known e key h at = ground (arith, e, key, h, at)

step_other :
    (test : WorkItem → Bool) (id c : ItemId) (it : WorkItem) (rest : List WorkItem) (right : Bool)
    → it.id ≡ id
    → (id == c) ≡ false
    → lists (keep test rest) c ≡ right
    → lists (keep test (it ∷ rest)) c ≡ right
step_other test id c it rest right key other h = ground (arith, key, other, h)

-- The cards of an index that pass a test, where each card has the id under which it stands.
lists-cards_in :
    (s : BoardState) (test : WorkItem → Bool) (ids : List ItemId) (c : ItemId)
    → IsSound s
    → lists (keep test (cards_in s ids)) c ≡ (contains ids c && passes test (Map.get s.items c))
unfolding cards_in contains
lists-cards_in s test [] c h = refl
lists-cards_in s test (id ∷ ids) c h =
    let before = lists-cards_in s test ids c h in
    elim (Bool-cases (id == c)) [
      | inl same ↦
          let at : id ≡ c = (==_iff id c).0 same in
          elim (Option-cases (Map.get s.items id)) [
            | inl e ↦
                let e' : Map.get s.items c ≡ none = rw (← at) e in
                rw (cards_in_missing s id ids e) (ground (arith, e', before))
            | inr (it, e) ↦
                let e' : Map.get s.items c ≡ some it = rw (← at) e in
                rw (cards_in_found s id ids it e) (
                  step test id c (Map.get s.items c) it (cards_in s ids) (contains ids c) e'
                    (h.indexed.keyed id it e) before at)
          ]
      | inr other ↦ elim (Option-cases (Map.get s.items id)) [
        | inl e ↦ rw (cards_in_missing s id ids e, other) before
        | inr (it, e) ↦
            rw (cards_in_found s id ids it e, other)
              (step_other test id c it (cards_in s ids) _ (h.indexed.keyed id it e) other before)
      ]
    ]

lists-with_all_blockers :
    (s : BoardState) (xs : List WorkItem) (c : ItemId)
    → lists (with_all_blockers s xs) c ≡ lists xs c
unfolding with_all_blockers populate_blockers
lists-with_all_blockers s [] c = refl
lists-with_all_blockers s (x ∷ xs) c = ap (λ t. x.id == c || t) (lists-with_all_blockers s xs c)

passes_found :
    (st : State) (test : WorkItem → Bool) (o : Option WorkItem)
    → (state_is o st && passes test o) ≡ true
    → (it : WorkItem) × (o ≡ some it) × (it.state ≡ st) × (test it ≡ true)
passes_found st test none h = absurd cc
passes_found st test (some it) h =
    (it, refl, (state_eq_iff it.state st).0 (ground (arith, h)), ground (arith, h))

passes_there :
    (st : State) (test : WorkItem → Bool) (o : Option WorkItem) (it : WorkItem)
    → o ≡ some it
    → it.state ≡ st
    → test it ≡ true
    → (state_is o st && passes test o) ≡ true
passes_there st test o it found at passed =
    let same = (state_eq_iff it.state st).1 at in rw found (ground (arith, same, passed))

-- The card on the board that stands in the state, with what else is asked of it.
abbrev pub Holds : BoardState → State → (WorkItem → Type 0) → ItemId → Type 0
Holds s st P c = (it : WorkItem) × (Map.get s.items c ≡ some it) × (it.state ≡ st) × P it

abbrev pub IsQueued : BoardState → WorkItem → Type 0
IsQueued s it = (it.awaiting_dispatch ≡ true) × (it.parked ≡ false) × IsReady s it

-- On a sound board the queue lists exactly the cards in Backlog that are queued, not parked, no Project,
-- whose children are all retired and whose blockers on the board are all done or retired; and the card that
-- has waited longest stands first.
pub list_awaiting_dispatch_lem :
    (b : Board)
    → IsSound b.state
    → IsByEntry (list_awaiting_dispatch b)
      × ((c : ItemId)
          → (lists (list_awaiting_dispatch b) c ≡ true)
            ↔ Holds b.state State.backlog (IsQueued b.state) c)
unfolding list_awaiting_dispatch
list_awaiting_dispatch_lem b h =
    let test : WorkItem → Bool =
      λ it. it.awaiting_dispatch && not it.parked && is_ready b.state it in
    let ids = members b.state.ids_by_state State.backlog in
    let listed : (c : ItemId)
        → lists (list_awaiting_dispatch b) c ≡ (
            state_is (Map.get b.state.items c) State.backlog
            && passes test (Map.get b.state.items c)) =
      λ c.
        any-sort (λ it. it.id == c) _
        ∙ lists-cards_in b.state test ids c h
        ∙ ap (λ t. t && passes test (Map.get b.state.items c)) (h.indexed.states State.backlog c) in
    (
      sort-IsByEntry (keep test (cards_in b.state ids)),
      λ c. (
        λ there.
            let (it, found, at, passed) =
              passes_found State.backlog test (Map.get b.state.items c) (sym (listed c) ∙ there) in
            let ready = (is_ready_iff b.state it h).0 (ground (arith, passed)) in
            (it, found, at, (ground (arith, passed), ground (arith, passed), ready)),
        λ (it, found, at, (queued, free, ready)).
            let is = (is_ready_iff b.state it h).1 ready in
            listed c
            ∙ passes_there State.backlog test (Map.get b.state.items c) it found at
                (ground (arith, queued, free, is)),
      ),
    )

abbrev pub IsOffered : BoardState → List String → WorkItem → Type 0
IsOffered s capabilities it = IsReady s it × IsServed capabilities it.capability

-- On a sound board the backlog of a worker lists exactly the cards in Backlog that are no Project, whose
-- children are all retired, whose blockers on the board are all done or retired, and whose capability is
-- none, any, or one that the worker has.
pub list_backlog_lem :
    (b : Board) (capabilities : List String) (c : ItemId)
    → IsSound b.state
    → (lists (list_backlog b capabilities) c ≡ true)
      ↔ Holds b.state State.backlog (IsOffered b.state capabilities) c
unfolding list_backlog
list_backlog_lem b capabilities c h =
    let test : WorkItem → Bool = λ it. is_ready b.state it && serves capabilities it.capability in
    let ids = members b.state.ids_by_state State.backlog in
    let listed : lists (list_backlog b capabilities) c ≡ (
        state_is (Map.get b.state.items c) State.backlog && passes test (Map.get b.state.items c)) =
      lists-with_all_blockers b.state _ c
      ∙ lists-cards_in b.state test ids c h
      ∙ ap (λ t. t && passes test (Map.get b.state.items c)) (h.indexed.states State.backlog c) in
    (
      λ there.
          let (it, found, at, passed) =
            passes_found State.backlog test (Map.get b.state.items c) (sym listed ∙ there) in
          let ready = (is_ready_iff b.state it h).0 (ground (arith, passed)) in
          let served = (serves_iff capabilities it.capability).0 (ground (arith, passed)) in
          (it, found, at, (ready, served)),
      λ (it, found, at, (ready, served)).
          let is = (is_ready_iff b.state it h).1 ready in
          let can = (serves_iff capabilities it.capability).1 served in
          listed
          ∙ passes_there State.backlog test (Map.get b.state.items c) it found at
              (ground (arith, is, can)),
    )
