-- ===== src/Board/Sound.antt =====
-- What holds of the board between two calls, whoever makes them.
use sandboard.Prelude.{
  ℕ, ◌<◌, ◌≡◌, refl, ap, String, Option, none, some, List, [], ◌∷◌, ◌++◌, Bool, true, false, arith,
  ◌==◌, Option-cases, Bool-cases, inl, inr, if◌then◌else◌,
}
use sandboard.Prelude.Result.{ok, Result-cases}
use sandboard.Map
use sandboard.Map.{Map, nat_key, get-insert, get-insert_cases}
use sandboard.Model.State.{State, state_eq, is_terminal}
use sandboard.Model.Item.{ItemId, WorkItem, Transition}
use sandboard.Machine.{check, allowed}
use sandboard.Board.State.{BoardState, index_set_state}
use sandboard.Board.State.Indexes.{IsIndexed, put_item, put_item-IsIndexed, set_state-IsIndexed}
use sandboard.Board.Tree.{has_children, unresolved_blockers}
use sandboard.Board.Transition.{enter, transition_locked, frees_card, commit}

-- A path through the lifecycle: each entry starts where the one before it ended, along a legal edge.
abbrev pub IsTrail : State → List Transition → State → Type 0
IsTrail a [] b = a ≡ b
IsTrail a (t ∷ ts) b = (t.source ≡ a) × (allowed a t.to ≡ true) × IsTrail t.to ts b

IsTrail-append :
    (a b : State) (ts : List Transition) (t : Transition)
    → IsTrail a ts b
    → t.source ≡ b
    → allowed b t.to ≡ true
    → IsTrail a (ts ++ t ∷ []) t.to
IsTrail-append a b [] t trail from legal = rw trail (from, legal, refl)
IsTrail-append a b (u ∷ ts) t trail from legal =
    (trail.0, trail.1, IsTrail-append u.to b ts t trail.2 from legal)

-- States in which a card may still carry a lease.
abbrev pub may_hold_lease : State → Bool
may_hold_lease State.claimed = true
may_hold_lease State.running = true
may_hold_lease State.splitting = true
may_hold_lease State.review = true
may_hold_lease _ = false

-- A card by itself: it carries no lease where no agent holds it, a finished card waits for nothing,
-- and its history is a path through the lifecycle that ends in its state.
pub record IsCard (it : WorkItem) : Type 0 where
  pub unleased : may_hold_lease it.state ≡ false → (it.lease ≡ none) × (it.run_deadline_at ≡ none)
  pub at_rest :
      is_terminal it.state ≡ true
      → (it.parked ≡ false) × (it.awaiting_dispatch ≡ false) × (it.rebase_requested ≡ false)
  pub trail : IsTrail State.draft it.history it.state

-- The cards of a board: Projects at the top, Tasks one level below, ids not reused.
pub record IsForest (items : Map ItemId WorkItem) (next_id : ItemId) : Type 0 where
  pub cards : (id : ItemId) (it : WorkItem) → Map.get items id ≡ some it → IsCard it
  pub flat :
      (id p : ItemId) (it : WorkItem)
      → Map.get items id ≡ some it
      → it.parent ≡ some p
      → (q : WorkItem) × (Map.get items p ≡ some q) × (q.parent ≡ none)
  pub fresh : (id : ItemId) (it : WorkItem) → Map.get items id ≡ some it → id < next_id

pub record IsSound (s : BoardState) : Type 0 where
  pub indexed : IsIndexed s
  pub forest : IsForest s.items s.next_id

-- Draft is entered from Retired only, where the card carries no lease.
draft_from_retired : (source : State) → allowed source State.draft ≡ true → source ≡ State.retired
unfolding allowed
draft_from_retired source legal = ground arith

frees-unleased :
    {A : Type 0} (source to : State) (held : Option A)
    → allowed source to ≡ true
    → (may_hold_lease source ≡ false → held ≡ none)
    → may_hold_lease to ≡ false
    → (if frees_card to then none else held) ≡ none
unfolding frees_card
frees-unleased source State.draft held legal before h =
    let retired = draft_from_retired source legal in before (ap may_hold_lease retired)
frees-unleased source _ held legal before h = ground arith

-- A legal move turns a card into a card.
enter-IsCard :
    (now : ℕ) (to : State) (by : String) (reason : Option String) (it : WorkItem)
    → allowed it.state to ≡ true
    → IsCard it
    → IsCard (enter now to by reason it)
unfolding enter
enter-IsCard now to by reason it legal h = record {
  unleased = λ free. (
    frees-unleased it.state to it.lease legal (λ e. (h.unleased e).0) free,
    frees-unleased it.state to it.run_deadline_at legal (λ e. (h.unleased e).1) free,
  );
  at_rest = λ closed. ground arith;
  trail = IsTrail-append State.draft it.state it.history _ h.trail refl legal;
}

-- A Project stays one when a card is written over.
stays_top :
    (items : Map ItemId WorkItem) (id p : ItemId) (old it q : WorkItem)
    → Map.get items id ≡ some old
    → it.parent ≡ old.parent
    → Map.get items p ≡ some q
    → q.parent ≡ none
    → (r : WorkItem) × (Map.get (Map.insert items id it) p ≡ some r) × (r.parent ≡ none)
stays_top items id p old it q found same there top = elim (Bool-cases (id == p)) [
  | inl e ↦ (it, ground (arith, get-insert items id p it), ground arith)
  | inr e ↦ (q, ground (arith, get-insert items id p it), top)
]

-- Writing a card over the one of the same id and parent.
pub insert-IsForest :
    (items : Map ItemId WorkItem) (next_id id : ItemId) (old it : WorkItem)
    → Map.get items id ≡ some old
    → it.parent ≡ old.parent
    → IsCard it
    → IsForest items next_id
    → IsForest (Map.insert items id it) next_id
insert-IsForest items next_id id old it found same card h = record {
  cards = λ j x e. elim (get-insert_cases items id j it x e) [
    | inl (_, new) ↦ rw (← new) card
    | inr before ↦ h.cards j x before
  ];
  flat = λ j p x e up. elim (get-insert_cases items id j it x e) [
    | inl (_, new) ↦
        let (q, there, top) = h.flat id p old found (cc) in
        stays_top items id p old it q found same there top
    | inr before ↦
        let (q, there, top) = h.flat j p x before up in
        stays_top items id p old it q found same there top
  ];
  fresh = λ j x e. elim (get-insert_cases items id j it x e) [
    | inl (here, _) ↦ rw (← here) (h.fresh id old found)
    | inr before ↦ h.fresh j x before
  ];
}

-- A change of one card that keeps its id, its parent and its state.
pub put_item-IsSound :
    (id : ItemId) (old it : WorkItem) (s : BoardState)
    → Map.get s.items id ≡ some old
    → it.id ≡ old.id
    → it.parent ≡ old.parent
    → it.state ≡ old.state
    → IsCard it
    → IsSound s
    → IsSound (put_item id it s)
put_item-IsSound id old it s found same_id same_parent same_state card h = record {
  indexed = put_item-IsIndexed id old it s found same_id same_parent same_state h.indexed;
  forest = insert-IsForest s.items s.next_id id old it found same_parent card h.forest;
}

pub items-index_set_state :
    (id : ItemId) (source to : State) (s : BoardState)
    → ((index_set_state id source to s).items ≡ s.items)
      × ((index_set_state id source to s).next_id ≡ s.next_id)
unfolding index_set_state
items-index_set_state id source to s = elim (Bool-cases (state_eq source to)) [
  | inl e ↦ rw e (refl, refl)
  | inr e ↦ rw e (refl, refl)
]

-- A change of one card that keeps its id and its parent, with its state's index brought up to date.
pub move_item-IsSound :
    (id : ItemId) (old it : WorkItem) (s : BoardState)
    → Map.get s.items id ≡ some old
    → it.id ≡ old.id
    → it.parent ≡ old.parent
    → IsCard it
    → IsSound s
    → IsSound (index_set_state id old.state it.state (put_item id it s))
move_item-IsSound id old it s found same_id same_parent card h =
    let (a, b) = items-index_set_state id old.state it.state (put_item id it s) in
    record {
      indexed = set_state-IsIndexed id old it s found same_id same_parent h.indexed;
      forest =
          rw (a, b) (insert-IsForest s.items s.next_id id old it found same_parent card h.forest);
    }

check_allows :
    (item : WorkItem) (to : State) (has_kids : Bool) (blockers : List ItemId)
    → check item to has_kids blockers ≡ ok tt
    → allowed item.state to ≡ true
unfolding check
check_allows item to has_kids blockers h = ground arith

commit-IsSound :
    (now : ℕ) (id : ItemId) (to : State) (by : String) (reason : Option String) (s : BoardState)
    (item : WorkItem) (has_kids : Bool) (blockers : List ItemId)
    → Map.get s.items id ≡ some item
    → IsSound s
    → IsSound (commit (check item to has_kids blockers) id item (enter now to by reason item) s).1
unfolding commit enter
commit-IsSound now id to by reason s item has_kids blockers found h =
    elim (Result-cases (check item to has_kids blockers)) [
      | inl (e, refused) ↦ rw refused h
      | inr (_, passed) ↦ rw passed (
          move_item-IsSound id item (enter now to by reason item) s found refl refl
            (enter-IsCard now to by reason item (check_allows item to has_kids blockers passed)
              (h.forest.cards id item found))
            h)
    ]

-- A transition, refused or made, leaves a sound board sound.
pub transition_locked-IsSound :
    (now : ℕ) (id : ItemId) (to : State) (by : String) (reason : Option String) (s : BoardState)
    → IsSound s
    → IsSound (transition_locked now id to by reason s).1
unfolding transition_locked
transition_locked-IsSound now id to by reason s h = elim (Option-cases (Map.get s.items id)) [
  | inl e ↦ rw (e, transition_locked) h
  | inr (item, e) ↦
      rw (e, transition_locked)
        (commit-IsSound now id to by reason s item (has_children s id) (unresolved_blockers s item)
          e h)
]
