-- ===== src/Board/Invariant/Benign.antt =====
-- Writes under the lock that leave a card the same card in the same state.
use sandboard.Prelude.{◌≡◌, refl, Bool, true, false, none, if◌then◌else◌}
use sandboard.Prelude.Result.{Result, ok, err}
use sandboard.Model.Item.{WorkItem}
use sandboard.Board.Sound.{IsCard}
use sandboard.Board.Core.{Board}
use sandboard.Board.Invariant.Closed.{IsVersion, IsBenign}

-- The fields on which the invariants rest are those of `old`.
pub record Untouched (old it : WorkItem) : Type 0 where
  pub id : it.id ≡ old.id
  pub parent : it.parent ≡ old.parent
  pub state : it.state ≡ old.state
  pub lease : it.lease ≡ old.lease
  pub run_deadline_at : it.run_deadline_at ≡ old.run_deadline_at
  pub parked : it.parked ≡ old.parked
  pub awaiting_dispatch : it.awaiting_dispatch ≡ old.awaiting_dispatch
  pub rebase_requested : it.rebase_requested ≡ old.rebase_requested
  pub history : it.history ≡ old.history

pub Untouched-IsVersion : (old it : WorkItem) → IsCard old → Untouched old it → IsVersion old it
Untouched-IsVersion old it h u = record {
  same_id = u.id;
  same_parent = u.parent;
  same_state = u.state;
  same_history = u.history;
  card = record {
    unleased = rw (u.state, u.lease, u.run_deadline_at) h.unleased;
    at_rest = rw (u.state, u.parked, u.awaiting_dispatch, u.rebase_requested) h.at_rest;
    trail = rw (u.state, u.history) h.trail;
  };
}

module _ {E : Type 0} where
  ok-injective : (a b : WorkItem) → ◌≡◌ {A = Result E WorkItem} (ok a) (ok b) → a ≡ b
  ok-injective a b h = cc

  -- A write with no test.
  pub IsBenign-ok :
      (g : Board → WorkItem → WorkItem)
      → ((b : Board) (old : WorkItem) → IsCard old → IsVersion old (g b old))
      → IsBenign {E = E} (λ b it. ok (g b it))
  IsBenign-ok g keep b old it h e =
      let same : g b old ≡ it = ok-injective _ _ e in rw (← same) (keep b old h)

  -- A write behind a test that has to fail.
  pub IsBenign-unless :
      (test : Board → WorkItem → Bool) (e : E) (g : Board → WorkItem → WorkItem)
      → ((b : Board) (old : WorkItem) → test b old ≡ false → IsCard old → IsVersion old (g b old))
      → IsBenign {E = E} (λ b it. if test b it then err e else ok (g b it))
  IsBenign-unless test e g keep b old it h = branch (test b old) (keep b old)
    where
      branch :
          (t : Bool)
          → (t ≡ false → IsCard old → IsVersion old (g b old))
          → (if t then err e else ok (g b old)) ≡ ok it
          → IsVersion old it
      branch true k eq = cc
      branch false k eq = let same : g b old ≡ it = ok-injective _ _ eq in rw (← same) (k refl h)

  -- A write behind a test that has to pass.
  pub IsBenign-when :
      (test : Board → WorkItem → Bool) (e : E) (g : Board → WorkItem → WorkItem)
      → ((b : Board) (old : WorkItem) → test b old ≡ true → IsCard old → IsVersion old (g b old))
      → IsBenign {E = E} (λ b it. if test b it then ok (g b it) else err e)
  IsBenign-when test e g keep b old it h = branch (test b old) (keep b old)
    where
      branch :
          (t : Bool)
          → (t ≡ true → IsCard old → IsVersion old (g b old))
          → (if t then ok (g b old) else err e) ≡ ok it
          → IsVersion old it
      branch false k eq = cc
      branch true k eq = let same : g b old ≡ it = ok-injective _ _ eq in rw (← same) (k refl h)

  pub IsBenign-fields :
      (g : Board → WorkItem → WorkItem)
      → ((b : Board) (old : WorkItem) → Untouched old (g b old))
      → IsBenign {E = E} (λ b it. ok (g b it))
  IsBenign-fields g keep =
      IsBenign-ok g (λ b old h. Untouched-IsVersion old (g b old) h (keep b old))

-- The card is the same card in the same state, and nothing that was cleared is set again.
pub record Eased (old it : WorkItem) : Type 0 where
  pub id : it.id ≡ old.id
  pub parent : it.parent ≡ old.parent
  pub state : it.state ≡ old.state
  pub history : it.history ≡ old.history
  pub lease : old.lease ≡ none → it.lease ≡ none
  pub run_deadline_at : old.run_deadline_at ≡ none → it.run_deadline_at ≡ none
  pub parked : old.parked ≡ false → it.parked ≡ false
  pub awaiting_dispatch : old.awaiting_dispatch ≡ false → it.awaiting_dispatch ≡ false
  pub rebase_requested : old.rebase_requested ≡ false → it.rebase_requested ≡ false

pub Eased-IsVersion : (old it : WorkItem) → IsCard old → Eased old it → IsVersion old it
Eased-IsVersion old it h u = record {
  same_id = u.id;
  same_parent = u.parent;
  same_state = u.state;
  same_history = u.history;
  card = record {
    unleased = rw u.state λ e. let (l, d) = h.unleased e in (u.lease l, u.run_deadline_at d);
    at_rest = rw u.state λ e.
        let (p, a, r) = h.at_rest e in (u.parked p, u.awaiting_dispatch a, u.rebase_requested r);
    trail = rw (u.state, u.history) h.trail;
  };
}

module _ {E : Type 0} where
  pub IsBenign-Eased :
      (f : Board → WorkItem → Result E WorkItem)
      → ((b : Board) (old it : WorkItem) → f b old ≡ ok it → Eased old it)
      → IsBenign f
  IsBenign-Eased f keep b old it h e = Eased-IsVersion old it h (keep b old it e)
