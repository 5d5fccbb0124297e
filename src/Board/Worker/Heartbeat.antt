-- ===== src/Board/Worker/Heartbeat.antt =====
-- src/store.rs: a heartbeat leaves the deadline of the run where it is.
use sandboard.Prelude.{
  ℕ, ◌≡◌, refl, String, Option, none, some, arith, Option-cases, inl, inr, ==_self,
}
use sandboard.Prelude.Int.{ℤ}
use sandboard.Prelude.Result.{ok, Result-cases}
use sandboard.Map
use sandboard.Map.{nat_key, get-insert}
use sandboard.Model.State.{State}
use sandboard.Model.Item.{ItemId, WorkItem, Lease}
use sandboard.Machine.{TransitionError, check}
use sandboard.Board.State.{BoardState, index_set_state}
use sandboard.Board.State.Indexes.{put_item}
use sandboard.Board.Tree.{has_children, unresolved_blockers}
use sandboard.Board.Feed.{emit, number_and_send, record_and_send}
use sandboard.Board.Transition.{
  enter, commit, transition_locked, transition_card, change_card, store_back, frees_card,
}
use sandboard.Board.Transition.Stands.{items-index_set_state}
use sandboard.Board.Worker.{heartbeat, clamp_progress, beat}
use sandboard.Board.Core.{Board, modify}
use sandboard.Board.Core.Keeps.{Keeps, Keeps-modify, keeps_rules}

abbrev pub expiry_of : Option Lease → Option ℕ
expiry_of none = none
expiry_of (some l) = some l.expires_at

expiry_of-beat : (now : ℕ) (lease : Option Lease) → expiry_of (beat now lease) ≡ expiry_of lease
expiry_of-beat now none = refl
expiry_of-beat now (some l) = refl

-- The card, if it is on the board, has this run deadline, and a lease that expires then, if any.
pub record IsDue (id : ItemId) (deadline expiry : Option ℕ) (b : Board) : Type 0 where
  pub due : (it : WorkItem) → Map.get b.state.items id ≡ some it → it.run_deadline_at ≡ deadline
  pub expires : (it : WorkItem) → Map.get b.state.items id ≡ some it → expiry_of it.lease ≡ expiry

module _ (id : ItemId) (deadline expiry : Option ℕ) where
  Due-emit :
      {E : Type 0} (item : WorkItem) → Keeps {E = E} (IsDue id deadline expiry) (modify (emit item))
  unfolding emit number_and_send record_and_send
  Due-emit item = Keeps-modify (emit item) (λ b h. record { due = h.due; expires = h.expires })

  -- Any write under the lock of a card that keeps both.
  Due-put :
      (b : Board) (s : BoardState) (old it : WorkItem)
      → Map.get b.state.items id ≡ some old
      → Map.get s.items id ≡ some it
      → it.run_deadline_at ≡ old.run_deadline_at
      → expiry_of it.lease ≡ expiry_of old.lease
      → IsDue id deadline expiry b
      → IsDue id deadline expiry (record b { state = s })
  Due-put b s old it found now same_deadline same_lease h = record {
    due = λ x e. ground (arith, h.due old found, now, e, same_deadline);
    expires = λ x e.
        let at : x ≡ it = ground (arith, now, e) in rw (at, same_lease) (h.expires old found);
  }

  Due-transition_card :
      (by : String) (reason : Option String)
      → Keeps (IsDue id deadline expiry) (transition_card id State.running by reason)
  unfolding transition_card transition_locked commit enter frees_card
  Due-transition_card by reason = record {
    at = λ b h. elim (Option-cases (Map.get b.state.items id)) [
      | inl e ↦ rw (e, transition_card, transition_locked) h
      | inr (it, found) ↦
          elim (Result-cases
            (check it State.running (has_children b.state id) (unresolved_blockers b.state it))) [
              | inl (x, refused) ↦ rw (transition_card, transition_locked, found, refused) h
              | inr (_, passed) ↦
                  rw (transition_card, transition_locked, found, passed)
                    (Due-put b _ it (enter b.clock State.running by reason it) found
                      (there b it by reason) (due_kept b.clock by reason it)
                      (lease_kept b.clock by reason it) h)
            ]
    ];
  }
    where
      there :
          (b : Board) (it : WorkItem) (by : String) (reason : Option String)
          → Map.get
              (index_set_state id it.state
                (enter b.clock State.running by reason it).state
                (put_item id (enter b.clock State.running by reason it) b.state)).items
              id
            ≡ some (enter b.clock State.running by reason it)
      there b it by reason =
          let moved = enter b.clock State.running by reason it in
          rw (items-index_set_state id it.state moved.state (put_item id moved b.state))
            (rw (get-insert, ==_self id) refl)

      due_kept :
          (now : ℕ) (by : String) (reason : Option String) (it : WorkItem)
          → (enter now State.running by reason it).run_deadline_at ≡ it.run_deadline_at
      due_kept now by reason it = refl

      lease_kept :
          (now : ℕ) (by : String) (reason : Option String) (it : WorkItem)
          → expiry_of (enter now State.running by reason it).lease ≡ expiry_of it.lease
      lease_kept now by reason it = refl

  Due-beat :
      (progress : ℤ)
      → Keeps (IsDue id deadline expiry) (
          change_card (TransitionError.no_such_item id) id λ b it.
            ok (record it { progress = clamp_progress progress; lease = beat b.clock it.lease }))
  unfolding change_card store_back
  Due-beat progress = record {
    at = λ b h. elim (Option-cases (Map.get b.state.items id)) [
      | inl e ↦ rw (e, change_card) h
      | inr (it, found) ↦
          rw (found, change_card)
            (Due-put b _ it
              (record it { progress = clamp_progress progress; lease = beat b.clock it.lease })
              found (rw (get-insert, ==_self id) refl) refl (expiry_of-beat b.clock it.lease) h)
    ];
  }

  heartbeat-IsDue :
      (agent_id : String) (progress : ℤ)
      → Keeps (IsDue id deadline expiry) (heartbeat id agent_id progress)
  unfolding heartbeat
  heartbeat-IsDue agent_id progress =
      search (keeps_rules, Due-emit, Due-transition_card, Due-beat) depth 16

-- A heartbeat, accepted or refused, leaves the run deadline of the card and the time at which its lease
-- expires as they were.
pub heartbeat_keeps_deadline :
    (id : ItemId) (agent_id : String) (progress : ℤ) (b : Board) (old it : WorkItem)
    → Map.get b.state.items id ≡ some old
    → Map.get (heartbeat id agent_id progress b).1.state.items id ≡ some it
    → (it.run_deadline_at ≡ old.run_deadline_at) × (expiry_of it.lease ≡ expiry_of old.lease)
heartbeat_keeps_deadline id agent_id progress b old it before after =
    let h =
      (heartbeat-IsDue id old.run_deadline_at (expiry_of old.lease) agent_id progress).at b
        (record {
          due = λ x e. ground (arith, before, e);
          expires = λ x e. let at : x ≡ old = ground (arith, before, e) in rw at refl;
        }) in
    (h.due it after, h.expires it after)
