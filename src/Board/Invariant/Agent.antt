-- ===== src/Board/Invariant/Agent.antt =====
-- A closed predicate survives the verbs of the agent that holds a card.
use sandboard.Prelude.{
  ℕ, ◌+◌, ◌≡◌, refl, String, Option, none, some, List, [], ◌∷◌, Bool, false, arith,
}
use sandboard.Prelude.Int.{ℤ}
use sandboard.Prelude.Result.{Result, ok}
use sandboard.Map.{nat_key}
use sandboard.Model.State.{State, is_terminal}
use sandboard.Model.Item.{ItemId, WorkItem, EscalationOption, Lease, full_progress}
use sandboard.Machine.{TransitionError}
use sandboard.Board.Sound.{IsCard}
use sandboard.Board.Transition.Stands.{transition_card-Gives}
use sandboard.Board.Worker.{
  grant, claim, heartbeat, clamp_progress, beat, gate_runs, report, note_bounce, tell_release,
  release_with_reason, release, escalate, record_run_failure, reopen_for_adoption, requeue_all,
  sweep_leases,
}
use sandboard.Board.Core.{Board}
use sandboard.Board.Core.Keeps.{Keeps, Keeps-pure, Keeps-bind}
use sandboard.Board.Core.Given.{From-bind, Gives-map_error, Keeps-bind_given}
use sandboard.Board.Invariant.Benign.{IsBenign-Eased}
use sandboard.Board.Invariant.Moving.{move_rules}
use sandboard.Board.Invariant.Closed.{Closed, IsBenign, IsVersion, closed_rules, From-change_card}

-- A card in Claimed may be given a lease.
leased-IsVersion :
    (old : WorkItem) (lease : Option Lease) (deadline : Option ℕ) (parked awaiting rebase : Bool)
    (model : Option String)
    → old.state ≡ State.claimed
    → IsCard old
    → IsVersion old (record old {
      lease = lease;
      run_deadline_at = deadline;
      parked = parked;
      awaiting_dispatch = awaiting;
      rebase_requested = rebase;
      model = model;
    })
unfolding is_terminal
leased-IsVersion old lease deadline parked awaiting rebase model claimed h = record {
  same_id = refl;
  same_parent = refl;
  same_state = refl;
  same_history = refl;
  card = record { unleased = λ e. ground arith; at_rest = λ e. ground arith; trail = h.trail };
}

granted-IsVersion :
    (agent_id : String) (model : Option String) (timeout_secs : ℤ) (b : Board) (old it : WorkItem)
    → old.state ≡ State.claimed
    → IsCard old
    → ◌≡◌ {A = Result TransitionError WorkItem}
        (ok (grant agent_id model timeout_secs b old))
        (ok it)
    → IsVersion old it
unfolding grant
granted-IsVersion agent_id model timeout_secs b old it claimed card e =
    let same : grant agent_id model timeout_secs b old ≡ it = cc in
    rw (← same) (leased-IsVersion old _ _ _ _ _ _ claimed card)

adopted-IsVersion :
    (old it : WorkItem) (lease : Option Lease) (deadline : Option ℕ)
    → old.state ≡ State.claimed
    → IsCard old
    → ◌≡◌ {A = Result String WorkItem}
        (ok (record old { awaiting_dispatch = false; run_deadline_at = deadline; lease = lease }))
        (ok it)
    → IsVersion old it
adopted-IsVersion old it lease deadline claimed card e =
    let same : record old { awaiting_dispatch = false; run_deadline_at = deadline; lease = lease }
        ≡ it =
      cc in
    rw (← same) (
      leased-IsVersion old lease deadline old.parked false old.rebase_requested old.model claimed
        card)

module _ {P : Board → Type 0} (c : Closed P) where
  pub claim-Keeps :
      (id : ItemId) (agent_id : String) (model : Option String) (timeout_secs : ℤ)
      → Keeps P (claim id agent_id model timeout_secs)
  unfolding claim
  claim-Keeps id agent_id model timeout_secs = Keeps-bind _ _ (search closed_rules) λ parked.
      Keeps-bind _ _ (search closed_rules) λ _.
        Keeps-bind_given _ _ (search closed_rules)
          (transition_card-Gives id State.claimed agent_id none)
          λ _.
            From-bind _ _
              (From-change_card c _ id _ (λ b stands old it found card e.
                granted-IsVersion agent_id model timeout_secs b old it (stands.here old found) card
                  e))
              (λ _. search closed_rules depth 8)

  pub heartbeat-Keeps :
      (id : ItemId) (agent_id : String) (progress : ℤ) → Keeps P (heartbeat id agent_id progress)
  unfolding heartbeat
  heartbeat-Keeps id agent_id progress = search (closed_rules, beats) depth 16
    where
      beats : IsBenign {E = TransitionError} (λ b it.
          ok (record it { progress = clamp_progress progress; lease = beat b.clock it.lease }))
      beats = IsBenign-Eased _ (λ b old it e. ground arith)

  pub report-Keeps :
      (id : ItemId) (agent_id : String) (added removed : ℕ) (gates : List String)
      → Keeps P (report id agent_id added removed gates)
  unfolding report
  report-Keeps id agent_id added removed gates = search (move_rules, measured) depth 12
    where
      measured : IsBenign {E = Unit} (λ _ it. ok (record it {
        diff_added = added;
        diff_removed = removed;
        progress = full_progress;
        last_bounce_reason = none;
        last_conflict_files = [];
        gates = gate_runs gates;
      }))
      measured = IsBenign-Eased _ (λ b old it e. ground arith)

  note_bounce-Keeps : (reason : Option String) (id : ItemId) → Keeps P (note_bounce reason id)
  unfolding note_bounce
  note_bounce-Keeps none id = Keeps-pure tt
  note_bounce-Keeps (some r) id = search (closed_rules, noted)
    where
      noted : IsBenign {E = Unit} (λ _ it. ok (record it { last_bounce_reason = some r }))
      noted = IsBenign-Eased _ (λ b old it e. ground arith)

  tell_release-Keeps :
      (reason : Option String) (id : ItemId) (title : String)
      → Keeps P (tell_release reason id title)
  unfolding tell_release
  tell_release-Keeps none id title = Keeps-pure tt
  tell_release-Keeps (some r) id title = search closed_rules

  pub release_with_reason-Keeps :
      (id : ItemId) (agent_id : String) (reason : Option String)
      → Keeps P (release_with_reason id agent_id reason)
  unfolding release_with_reason
  release_with_reason-Keeps id agent_id reason =
      search (closed_rules, note_bounce-Keeps, tell_release-Keeps) depth 12

  pub release-Keeps : (id : ItemId) (agent_id : String) → Keeps P (release id agent_id)
  unfolding release
  release-Keeps id agent_id = release_with_reason-Keeps id agent_id none

  pub escalate-Keeps :
      (id : ItemId) (agent_id question : String) (options : List EscalationOption) (recommended : ℕ)
      → Keeps P (escalate id agent_id question options recommended)
  unfolding escalate
  escalate-Keeps id agent_id question options recommended = search (move_rules, asked) depth 14
    where
      asked : IsBenign {E = String} λ b it. ok (record it {
        escalation = some (record {
          question = question;
          options = options;
          recommended = recommended;
          blocked_since = b.clock;
          answer = none;
        });
        rebase_requested = false;
        awaiting_dispatch = false;
      })
      asked = IsBenign-Eased _ (λ b old it e. ground arith)

  counted-IsBenign :
      IsBenign {E = String} (λ _ it. ok (record it { run_failures = it.run_failures + 1 }))
  counted-IsBenign = IsBenign-Eased _ (λ b old it e. ground arith)

  pub record_run_failure-Keeps :
      (id : ItemId) (reason : String) (max_attempts : ℕ)
      → Keeps P (record_run_failure id reason max_attempts)
  unfolding record_run_failure
  record_run_failure-Keeps id reason max_attempts =
      search (move_rules, counted-IsBenign, escalate-Keeps) depth 16

  pub reopen_for_adoption-Keeps :
      (id : ItemId) (agent_id : String) (timeout_secs : ℤ)
      → Keeps P (reopen_for_adoption id agent_id timeout_secs)
  unfolding reopen_for_adoption
  reopen_for_adoption-Keeps id agent_id timeout_secs =
      Keeps-bind _ _ (search closed_rules) λ parked. Keeps-bind _ _ (search closed_rules) λ _.
        Keeps-bind _ _ (search closed_rules) λ waiting. Keeps-bind _ _ (search closed_rules) λ _.
          Keeps-bind_given _ _ (search closed_rules depth 8)
            (Gives-map_error _ _ (transition_card-Gives id State.claimed "supervisor" _))
            λ _.
              From-bind _ _
                (From-change_card c _ id _ (λ b stands old it found card e.
                  adopted-IsVersion old it _ _ (stands.here old found) card e))
                (λ _. search closed_rules depth 8)

  requeue_all-Keeps : (ids : List ItemId) → Keeps P (requeue_all ids)
  unfolding requeue_all
  requeue_all-Keeps [] = Keeps-pure tt
  requeue_all-Keeps (id ∷ rest) = Keeps-bind _ _ (search move_rules) λ title.
      Keeps-bind _ _ (search move_rules)
        λ _. Keeps-bind _ _ (search move_rules) λ _. requeue_all-Keeps rest

  pub sweep_leases-Keeps : Keeps P sweep_leases
  unfolding sweep_leases
  sweep_leases-Keeps = search (closed_rules, requeue_all-Keeps) depth 10
