-- ===== src/Board/Worker.antt =====
-- src/store.rs: the verbs that the supervisor uses on behalf of the agent that holds a card.
pub mod Claim
pub mod Overdue
pub mod Requeue
pub mod Sweep
pub mod Heartbeat
pub mod Failure
use sandboard.Prelude.{
  ℕ, ◌+◌, ◌*◌, ◌-◌, max, min, String, Option, none, some, List, [], ◌∷◌, ◌++◌, Bool, false, ◌||◌,
  not, ltb, leb, length, keep, if◌then◌else◌,
}
use sandboard.Prelude.Text.{format, show_ℕ}
use sandboard.Prelude.Int.{ℤ, pos, negsuc}
use sandboard.Prelude.Result.{Result, ok, err}
use sandboard.Map
use sandboard.Map.{nat_key}
use sandboard.Map.Index.{members}
use sandboard.Machine.{TransitionError, error_text}
use sandboard.Model.State.{State, state_eq, state_key}
use sandboard.Model.Item.{
  ItemId, WorkItem, Lease, is_expired, EscalationOption, GateRun, GateStatus, full_progress,
}
use sandboard.Board.Feed.{emit, story}
use sandboard.Board.Transition.{transition_card, change_card, get_card}
use sandboard.Board.Moves.{transition, transition_str}
use sandboard.Board.Core.{
  Board, Action, pure, raise, lift, gets, modify, ◌>>=◌, ◌>>◌, map_error, attempt,
}

abbrev pub nanos_per_second : ℕ
nanos_per_second = 1000000000

-- `timeout_secs.max(1)`, of a signed number
unfoldable pub at_least_one : ℤ → ℕ
at_least_one (pos n) = max n 1
at_least_one (negsuc n) = 1

unfoldable pub deadline_after : ℤ → ℕ → ℕ
unfolding at_least_one
deadline_after timeout_secs now = now + at_least_one timeout_secs * nanos_per_second

unfoldable pub lease_for : String → ℕ → ℕ → Lease
lease_for agent_id now deadline = record {
  agent_id = agent_id;
  granted_at = now;
  last_heartbeat = now;
  expires_at = deadline;
}

unfoldable pub is_parked : Option WorkItem → Bool
is_parked none = false
is_parked (some it) = it.parked

unfoldable pub may_claim : Board → ItemId → Bool
unfolding is_parked
may_claim b id = not (is_parked (Map.get b.state.items id))

abbrev or_model : Option String → Option String → Option String
or_model none old = old
or_model (some m) old = some m

-- The card that a claim leaves: leased until the deadline, and no longer queued.
unfoldable pub grant : String → Option String → ℤ → Board → WorkItem → WorkItem
unfolding deadline_after lease_for
grant agent_id model timeout_secs b it = record it {
  parked = false;
  awaiting_dispatch = false;
  rebase_requested = false;
  run_deadline_at = some (deadline_after timeout_secs b.clock);
  lease = some (lease_for agent_id b.clock (deadline_after timeout_secs b.clock));
  model = or_model model it.model;
}

-- `claim` up to the event. The briefing that `ClaimGrant` carries besides the card is left out.
unfoldable pub claim : ItemId → String → Option String → ℤ → Action TransitionError WorkItem
claim id agent_id model timeout_secs = do
  parked ← gets (λ b. is_parked (Map.get b.state.items id))
  if parked then raise (TransitionError.parked id) else pure tt
  transition_card id State.claimed agent_id none
  item ←
      change_card (TransitionError.no_such_item id) id
        (λ b it. ok (grant agent_id model timeout_secs b it))
  modify (emit item)
  pure item

abbrev in_state : State → Option WorkItem → Bool
in_state st none = false
in_state st (some it) = state_eq it.state st

-- `clamp(0.0, 1.0)` of a signed progress
unfoldable pub clamp_progress : ℤ → ℕ
clamp_progress (pos n) = min n full_progress
clamp_progress (negsuc n) = 0

abbrev pub beat : ℕ → Option Lease → Option Lease
beat now none = none
beat now (some l) = some (record l { last_heartbeat = now })

abbrev distance : ℕ → ℕ → ℕ
distance a b = (a - b) + (b - a)

unfoldable pub progress_of : Option WorkItem → ℕ
progress_of none = 0
progress_of (some it) = it.progress

-- The first heartbeat promotes Claimed to Running. A quiet one is not emitted.
unfoldable pub heartbeat : ItemId → String → ℤ → Action TransitionError WorkItem
unfolding progress_of
heartbeat id agent_id progress = do
  promoted ← gets (λ b. in_state State.claimed (Map.get b.state.items id))
  if promoted then (do transition_card id State.running agent_id none; pure tt) else pure tt
  old ← gets (λ b. progress_of (Map.get b.state.items id))
  item ←
      change_card (TransitionError.no_such_item id) id
        λ b it. ok (record it { progress = clamp_progress progress; lease = beat b.clock it.lease })
  if promoted || ltb 1 (distance old (clamp_progress progress)) then modify (emit item) else pure tt
  pure item

unfoldable pub gate_runs : List String → List GateRun
gate_runs [] = []
gate_runs (name ∷ rest) =
    record {
      name = name;
      status = GateStatus.passed;
      detail = some "CI on the PR is the real gate";
    }
    ∷ gate_runs rest

-- The numbers of the run are written whether or not the move to Review is legal.
unfoldable pub report : ItemId → String → ℕ → ℕ → List String → Action TransitionError WorkItem
unfolding gate_runs
report id agent_id added removed gates = do
  attempt {E = Unit} (
      change_card tt id (λ _ it. ok (record it {
        diff_added = added;
        diff_removed = removed;
        progress = full_progress;
        last_bounce_reason = none;
        last_conflict_files = [];
        gates = gate_runs gates;
      })))
  transition id State.review agent_id none

abbrev release_reason : Option String → String
release_reason none = "released by agent"
release_reason (some r) = r

unfoldable pub note_bounce : Option String → ItemId → Action TransitionError Unit
note_bounce none id = pure tt
note_bounce (some r) id =
    attempt {E = Unit} (change_card tt id (λ _ it. ok (record it { last_bounce_reason = some r })))

unfoldable pub tell_release : Option String → ItemId → String → Action TransitionError Unit
tell_release none id title = pure tt
tell_release (some r) id title = modify (story id (format (title ∷ ": released (" ∷ r ∷ ")" ∷ [])))

unfoldable pub release_with_reason :
    ItemId → String → Option String → Action TransitionError WorkItem
unfolding note_bounce tell_release
release_with_reason id agent_id reason = do
  note_bounce reason id
  item ← transition_card id State.backlog agent_id (some (release_reason reason))
  modify (emit item)
  tell_release reason id item.title
  pure item

unfoldable pub release : ItemId → String → Action TransitionError WorkItem
release id agent_id = release_with_reason id agent_id none

unfoldable pub check_options : List EscalationOption → ℕ → Result String Unit
check_options options recommended =
    if ltb (length options) 2
    then err
        "escalate requires at least two concrete options and a recommendation — an open-ended question is not a decision a human can make in one tap"
    else if leb (length options) recommended
    then err (format ("recommended index " ∷ show_ℕ recommended ∷ " is out of range" ∷ []))
    else ok tt

unfoldable pub escalate :
    ItemId → String → String → List EscalationOption → ℕ → Action String WorkItem
unfolding check_options
escalate id agent_id question options recommended = do
  lift (check_options options recommended)
  change_card "no such item" id λ b it. ok (record it {
    escalation = some (record {
      question = question;
      options = options;
      recommended = recommended;
      blocked_since = b.clock;
      answer = none;
    });
    rebase_requested = false;
    awaiting_dispatch = false;
  })
  item ← transition_str id State.needs_human agent_id (some question)
  modify (story id (format (item.title ∷ " is blocked: " ∷ question ∷ [])))
  pure item

failure_options : List EscalationOption
failure_options =
    record {
      label = "Investigate the environment";
      detail =
          "Repeated early failure usually means the sandbox, policy or credentials are wrong rather than the card being wrong. `openshell logs` on the kept sandbox is the place to start.";
    }
    ∷ record {
      label = "Cut scope";
      detail = "Retire the card if it is not worth the environment work it is asking for.";
    }
    ∷ []

-- A failed run goes back to the queue while the budget lasts, and to a human after that.
unfoldable pub record_run_failure : ItemId → String → ℕ → Action String WorkItem
unfolding failure_options
record_run_failure id reason max_attempts = do
  it ← change_card "no such item" id λ _ it. ok (record it { run_failures = it.run_failures + 1 })
  let failures = it.run_failures
  if state_eq it.state State.claimed
      then attempt (transition id State.running "supervisor" none)
      else pure tt
  if ltb failures max_attempts
      then (do
        item ←
            transition_str id State.backlog "supervisor"
              (some (format ("run failed: " ∷ reason ∷ [])))
        modify (
            story id (
              format (
                it.title
                ∷ " failed to run ("
                ∷ show_ℕ failures
                ∷ "/"
                ∷ show_ℕ max_attempts
                ∷ "): "
                ∷ reason
                ∷ [])))
        pure item)
      else escalate id "supervisor"
          (format (
            it.title
            ∷ " failed to run "
            ∷ show_ℕ failures
            ∷ " times without producing any work. Last failure: "
            ∷ reason
            ∷ []))
          failure_options 0

unfoldable pub reopen_for_adoption : ItemId → String → ℤ → Action String WorkItem
reopen_for_adoption id agent_id timeout_secs = do
  parked ← gets (λ b. is_parked (Map.get b.state.items id))
  if parked then raise (format ("#" ∷ show_ℕ id ∷ " is parked" ∷ [])) else pure tt
  waiting ← gets (λ b. in_state State.backlog (Map.get b.state.items id))
  if waiting
      then pure tt
      else raise (format ("#" ∷ show_ℕ id ∷ " is not Backlog (reopen needs Backlog)" ∷ []))
  map_error error_text (
      transition_card id State.claimed "supervisor"
        (some "reopened for sandbox re-adoption after supervisor restart"))
  item ← change_card "no such item" id λ b it. ok (record it {
    awaiting_dispatch = false;
    run_deadline_at = some (deadline_after timeout_secs b.clock);
    lease = some (lease_for agent_id b.clock (deadline_after timeout_secs b.clock));
  })
  modify (emit item)
  pure item

-- The run deadline decides, and the lease where a card has no deadline.
unfoldable pub is_overdue : ℕ → Option WorkItem → Bool
is_overdue now none = false
is_overdue now (some it) = elim it.run_deadline_at [
  | some d ↦ ltb d now
  | none ↦ elim it.lease [ none ↦ false | some l ↦ is_expired l now ]
]

unfoldable pub overdue_in : Board → State → List ItemId
unfolding is_overdue members
overdue_in b st =
    keep (λ id. is_overdue b.clock (Map.get b.state.items id)) (members b.state.ids_by_state st)

title_of : Option WorkItem → String
title_of none = ""
title_of (some it) = it.title

unfoldable pub requeue_all : List ItemId → Action String Unit
unfolding title_of
requeue_all [] = pure tt
requeue_all (id ∷ rest) = do
  title ← gets (λ b. title_of (get_card b id))
  attempt (transition id State.backlog "deadline-sweeper" (some "run deadline exceeded"))
  modify (story id (format (title ∷ ": run deadline exceeded; card requeued." ∷ [])))
  requeue_all rest

unfoldable pub sweep_leases : Action String (List ItemId)
unfolding requeue_all
sweep_leases = do
  expired ← gets (λ b. overdue_in b State.claimed ++ overdue_in b State.running)
  requeue_all expired
  pure expired
