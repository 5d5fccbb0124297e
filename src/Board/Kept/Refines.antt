-- ===== src/Board/Kept/Refines.antt =====
-- The board against an abstract view of it, which knows of each card where it is and what it went through.
use mathlib.Core.Path.{subst}
use sandboard.Prelude.{
  ℕ, ◌≡◌, refl, sym, ◌∙◌, ap, Option, none, some, List, [], ◌∷◌, ◌++◌, Option-cases, inl, inr,
}
use sandboard.Map
use sandboard.Map.{nat_key}
use sandboard.Schema.{Schema}
use sandboard.Model.State.{State}
use sandboard.Model.Item.{ItemId, WorkItem, Transition}
use sandboard.Board.Sound.{IsTrail}
use sandboard.Board.Call.{Call}
use sandboard.Board.Core.{Board}
use sandboard.Board.Kept.Calls.{Reach, run, called}
use sandboard.Board.Kept.Past.{append_nil, append_assoc}
use sandboard.Board.Kept.Reached.{Reach-IsSound, run-Remembers}

-- The abstract board: the state of each card and the transitions that it went through.
abbrev pub Journal : Type 0
Journal = ItemId → Option (State × List Transition)

entry_of : Option WorkItem → Option (State × List Transition)
entry_of none = none
entry_of (some it) = some (it.state, it.history)

unfoldable pub view : Board → Journal
unfolding entry_of
view b id = entry_of (Map.get b.state.items id)

-- A step of the abstract board: what a card went through stays as it was, and what is added leads along
-- legal edges from the state in which it was to the one in which it is. A new card starts from Draft.
pub record Advances (before after : Journal) : Type 0 where
  pub lives :
      (id : ItemId) (s : State) (ts : List Transition)
      → before id ≡ some (s, ts)
      → (t : State) × (more : List Transition) × (after id ≡ some (t, ts ++ more))
        × IsTrail s more t
  pub born :
      (id : ItemId) (t : State) (ts : List Transition)
      → before id ≡ none
      → after id ≡ some (t, ts)
      → IsTrail State.draft ts t

some_inj : {A : Type 0} {a b : A} → ◌≡◌ {A = Option A} (some a) (some b) → a ≡ b
some_inj h = cc

-- What was walked after a first part of the history.
later-IsTrail :
    (a b c : State) (ts us : List Transition)
    → IsTrail a ts b
    → IsTrail a (ts ++ us) c
    → IsTrail b us c
later-IsTrail a b c [] us p q = rw (← p) q
later-IsTrail a b c (t ∷ ts) us p q = later-IsTrail t.to b c ts us p.2 q.2

joined-IsTrail :
    (a b c : State) (ts us : List Transition)
    → IsTrail a ts b
    → IsTrail b us c
    → IsTrail a (ts ++ us) c
joined-IsTrail a b c [] us p q = rw p q
joined-IsTrail a b c (t ∷ ts) us p q = (p.0, p.1, joined-IsTrail t.to b c ts us p.2 q)

entry_found :
    (o : Option WorkItem) (s : State) (ts : List Transition)
    → entry_of o ≡ some (s, ts)
    → (it : WorkItem) × (o ≡ some it) × (it.state ≡ s) × (it.history ≡ ts)
unfolding entry_of
entry_found none s ts h = absurd cc
entry_found (some it) s ts h =
    let same = some_inj h in (it, refl, ap (λ e. e.0) same, ap (λ e. e.1) same)

run-lives :
    (schema : Schema) (start : ℕ) (b : Board) (c : Call)
    → Reach schema start b
    → (id : ItemId) (s : State) (ts : List Transition) → view b id ≡ some (s, ts)
    → (t : State) × (more : List Transition) × (view (run c b) id ≡ some (t, ts ++ more))
      × IsTrail s more t
unfolding view entry_of
run-lives schema start b c reach id s ts h =
    let (it, found, at, past) = entry_found _ s ts h in
    let (now, there, on) = run-Remembers schema start b c reach id it found in
    let before = ((Reach-IsSound schema start b reach).forest.cards id it found).trail in
    let after =
      ((Reach-IsSound schema start (run c b) (called c reach)).forest.cards id now there).trail in
    (
      now.state,
      on.later,
      rw there (ap (λ us. some (now.state, us)) (on.history ∙ ap (λ us. us ++ on.later) past)),
      rw (← at) (
          later-IsTrail State.draft it.state now.state it.history on.later before
            (rw (← on.history) after)),
    )

run-born :
    (schema : Schema) (start : ℕ) (b : Board)
    → Reach schema start b
    → (id : ItemId) (t : State) (ts : List Transition) → view b id ≡ some (t, ts)
    → IsTrail State.draft ts t
unfolding view
run-born schema start b reach id t ts h =
    let (it, found, at, past) = entry_found _ t ts h in
    rw (← at, ← past) ((Reach-IsSound schema start b reach).forest.cards id it found).trail

run-Advances :
    (schema : Schema) (start : ℕ) (b : Board) (c : Call)
    → Reach schema start b
    → Advances (view b) (view (run c b))
run-Advances schema start b c reach = record {
  lives = run-lives schema start b c reach;
  born = λ id t ts _. run-born schema start (run c b) (called c reach) id t ts;
}

Advances-refl : (v : Journal) → Advances v v
Advances-refl v = record {
  lives = λ id s ts h. (s, [], h ∙ ap (λ us. some (s, us)) (append_nil ts), refl);
  born = λ id t ts gone h. absurd cc;
}

Advances-trans : (u v w : Journal) → Advances u v → Advances v w → Advances u w
Advances-trans u v w p q = record {
  lives = λ id s ts h.
      let (m, first, there, on) = p.lives id s ts h in
      let (t, second, now, further) = q.lives id m (ts ++ first) there in
      (
        t,
        first ++ second,
        now ∙ ap (λ us. some (t, us)) (append_assoc ts first second),
        joined-IsTrail s m t first second on further,
      );
  born = λ id t ts gone here. elim (Option-cases (v id)) [
    | inl still ↦ q.born id t ts still here
    | inr ((m, us), there) ↦
        let (n, more, now, further) = q.lives id m us there in
        let same : (n, us ++ more) ≡ (t, ts) = some_inj (sym now ∙ here) in
        let whole = joined-IsTrail State.draft m n us more (p.born id m us gone there) further in
        subst (λ e. IsTrail State.draft e.1 e.0) same whole
  ];
}

-- The calls one after the other.
unfoldable pub run_all : List Call → Board → Board
run_all [] b = b
run_all (c ∷ rest) b = run_all rest (run c b)

-- Whatever calls other than deletions are made, one after the other, on a board that is reached, the
-- abstract board advances: no card is lost, what a card went through stays as it was, what is added to it
-- is a path of legal edges from its state before to its state after, and each new card has come so from
-- Draft.
pub run_all-Advances :
    (schema : Schema) (start : ℕ) (b : Board) (calls : List Call)
    → Reach schema start b
    → Advances (view b) (view (run_all calls b))
unfolding run_all
run_all-Advances schema start b [] reach = Advances-refl (view b)
run_all-Advances schema start b (c ∷ rest) reach =
    Advances-trans (view b) (view (run c b)) (view (run_all rest (run c b)))
      (run-Advances schema start b c reach)
      (run_all-Advances schema start (run c b) rest (called c reach))
