-- ===== src/Board/Invariant/Reviews.antt =====
-- A closed predicate survives what GitHub reports about pull requests and branches.
use sandboard.Prelude.{ℕ, ◌≡◌, refl, ◌++◌, String, Option, none, some, List, [], ◌∷◌, false, arith}
use sandboard.Prelude.Result.{ok}
use sandboard.Machine.{TransitionError}
use sandboard.Model.State.{is_terminal}
use sandboard.Model.PullRequest.{PullRequest}
use sandboard.Model.Item.{ItemId, WorkItem}
use sandboard.Board.Sound.{IsCard}
use sandboard.Board.Feed.{number_and_send}
use sandboard.Board.Event.{BoardEvent, seq_of}
use sandboard.Board.Merge.{
  report_pull_request, set_pr_url, mark_listed_pr_merged, tell_remaining, finish_merged,
  catch_refusal, after_mark, complete_found, complete_for_merged_pr_by, requeue_reviewed,
  feedback_found, apply_pr_review_feedback_by, stamp, add_report, normalize_pr_url,
}
use sandboard.Board.Rebase.{
  RebaseOutcome, request_retry, dispatch_rebase, note_conflict, conflict_bounce_note,
  escalate_conflict, bounce, settle_clean, settle, record_rebase_outcome,
}
use sandboard.Board.Advance.{
  interrupt, told, steer_card, steer_found, steer_all, steer_live_cards_on_main_advanced,
  notify_main_advanced,
}
use sandboard.Board.Core.{Board, Action, modify}
use sandboard.Board.Core.Keeps.{Keeps, Keeps-pure, Keeps-bind, Keeps-modify}
use sandboard.Board.Invariant.Benign.{IsBenign-Eased}
use sandboard.Board.Invariant.Closed.{Closed, IsBenign, IsVersion, closed_rules}
use sandboard.Board.Invariant.Moving.{move_rules}
use sandboard.Board.Invariant.Agent.{escalate-Keeps}
use sandboard.Board.Invariant.Humans.{steer-Keeps, park-Keeps, unpark-Keeps}
use sandboard.Board.Invariant.Session.{set_pull_requests-Keeps}

-- A card in Review may ask for a retry.
requested-IsVersion :
    (old it : WorkItem) (id : ItemId) → IsCard old → request_retry id old ≡ ok it → IsVersion old it
unfolding request_retry is_terminal
requested-IsVersion old it id h e =
    let state : it.state ≡ old.state = ground arith in
    let lease : it.lease ≡ old.lease = ground arith in
    let deadline : it.run_deadline_at ≡ old.run_deadline_at = ground arith in
    let history : it.history ≡ old.history = ground arith in
    let live : is_terminal it.state ≡ false = ground arith in
    record {
      same_id = ground arith;
      same_parent = ground arith;
      same_state = state;
      same_history = history;
      card = record {
        unleased = rw (state, lease, deadline) h.unleased;
        at_rest = λ closed. ground arith;
        trail = rw (state, history) h.trail;
      };
    }

module _ {P : Board → Type 0} (c : Closed P) where
  requested-IsBenign : (id : ItemId) → IsBenign (λ _ it. request_retry id it)
  requested-IsBenign id b old it card e = requested-IsVersion old it id card e

  pub dispatch_rebase-Keeps : (id : ItemId) → Keeps P (dispatch_rebase id)
  unfolding dispatch_rebase
  dispatch_rebase-Keeps id = search (closed_rules, requested-IsBenign) depth 14

  note_conflict-Keeps :
      (id : ItemId) (reason : String) (files : List String)
      → Keeps P (note_conflict id reason files)
  unfolding note_conflict
  note_conflict-Keeps id reason files = search (closed_rules, noted) depth 8
    where
      noted : IsBenign {E = Unit} (λ b it. ok (record it {
        last_bounce_reason = some reason;
        last_conflict_files = files;
        notes =
            it.notes
            ++ record { at = b.clock; author = "rebase"; text = conflict_bounce_note files } ∷ [];
      }))
      noted = IsBenign-Eased _ (λ b old it e. ground arith)

  escalate_conflict-Keeps :
      (id : ItemId) (files previous : List String) (reason : Option String)
      → Keeps P (escalate_conflict id files previous reason)
  unfolding escalate_conflict
  escalate_conflict-Keeps id files previous reason =
      search (closed_rules, note_conflict-Keeps, escalate-Keeps) depth 8

  rested-IsBenign :
      IsBenign {E = String}
        (λ _ it. ok (record it { rebase_requested = false; awaiting_dispatch = false }))
  rested-IsBenign = IsBenign-Eased _ (λ b old it e. ground arith)

  bounce-Keeps :
      (id : ItemId) (title : String) (files : List String) (reason : Option String)
      → Keeps P (bounce id title files reason)
  unfolding bounce
  bounce-Keeps id title files reason =
      search (closed_rules, note_conflict-Keeps, rested-IsBenign) depth 16

  settle_clean-Keeps : (id : ItemId) → Keeps P (settle_clean id)
  unfolding settle_clean
  settle_clean-Keeps id = search (closed_rules, cleared) depth 12
    where
      cleared : IsBenign {E = String} (λ _ it. ok (record it {
        rebase_requested = false;
        awaiting_dispatch = false;
        last_bounce_reason = none;
        last_conflict_files = [];
      }))
      cleared = IsBenign-Eased _ (λ b old it e. ground arith)

  settle-Keeps :
      (id : ItemId) (it : WorkItem) (outcome : RebaseOutcome) → Keeps P (settle id it outcome)
  unfolding settle
  settle-Keeps id it RebaseOutcome.clean = settle_clean-Keeps id
  settle-Keeps id it (RebaseOutcome.conflict files reason) =
      search (closed_rules, bounce-Keeps, escalate_conflict-Keeps) depth 8

  pub record_rebase_outcome-Keeps :
      (id : ItemId) (outcome : RebaseOutcome) → Keeps P (record_rebase_outcome id outcome)
  unfolding record_rebase_outcome
  record_rebase_outcome-Keeps id outcome = search (closed_rules, settle-Keeps) depth 8

  interrupt-Keeps : (id : ItemId) → Keeps P (interrupt id)
  unfolding interrupt
  interrupt-Keeps id = search (closed_rules, park-Keeps, unpark-Keeps) depth 12

  told-Keeps : (id : ItemId) (note line : String) → Keeps P (told id note line)
  unfolding told
  told-Keeps id note line = search (closed_rules, steer-Keeps) depth 10

  steer_card-Keeps :
      (ref_name : String) (sha : Option String) (id : ItemId) (it : WorkItem) (base : String)
      → Keeps P (steer_card ref_name sha id it base)
  unfolding steer_card
  steer_card-Keeps ref_name sha id it base =
      search (closed_rules, told-Keeps, interrupt-Keeps) depth 14

  steer_found-Keeps :
      (upstream advanced_repo ref_name : String) (sha : Option String) (id : ItemId)
      (found : Option WorkItem)
      → Keeps P (steer_found upstream advanced_repo ref_name sha id found)
  unfolding steer_found
  steer_found-Keeps upstream advanced_repo ref_name sha id none = Keeps-pure false
  steer_found-Keeps upstream advanced_repo ref_name sha id (some it) =
      search (closed_rules, steer_card-Keeps) depth 10

  steer_all-Keeps :
      (upstream advanced_repo ref_name : String) (sha : Option String) (ids : List ItemId)
      → Keeps P (steer_all upstream advanced_repo ref_name sha ids)
  unfolding steer_all
  steer_all-Keeps upstream advanced_repo ref_name sha [] = Keeps-pure []
  steer_all-Keeps upstream advanced_repo ref_name sha (id ∷ rest) =
      Keeps-bind _ _ (search closed_rules) λ found.
        Keeps-bind _ _ (steer_found-Keeps upstream advanced_repo ref_name sha id found) λ steered.
          Keeps-bind _ _ (steer_all-Keeps upstream advanced_repo ref_name sha rest)
            λ later. Keeps-pure _

  advanced-Keeps :
      (ref_name : String) (sha : Option String)
      → Keeps {E = String} P
          (modify (number_and_send (λ seq. BoardEvent.main_advanced seq ref_name sha)))
  unfolding seq_of
  advanced-Keeps ref_name sha =
      Keeps-modify _
        (λ b h. c.sent (λ seq. BoardEvent.main_advanced seq ref_name sha) b (λ n. refl) h)

  pub notify_main_advanced-Keeps :
      (upstream advanced_repo ref_name : String) (sha : Option String)
      → Keeps P (notify_main_advanced upstream advanced_repo ref_name sha)
  unfolding notify_main_advanced steer_live_cards_on_main_advanced
  notify_main_advanced-Keeps upstream advanced_repo ref_name sha =
      search (closed_rules, advanced-Keeps, steer_all-Keeps) depth 10

  pub report_pull_request-Keeps :
      (id : ItemId) (pr : PullRequest) → Keeps P (report_pull_request id pr)
  unfolding report_pull_request
  report_pull_request-Keeps id pr = search (closed_rules, listed) depth 12
    where
      listed :
          (url : String)
          → IsBenign {E = String} (λ b it. ok (record it {
            pull_requests = add_report (normalize_pr_url url) (stamp b.clock pr) it.pull_requests;
            legacy_pull_request = none;
            legacy_pr_url = none;
          }))
      listed url = IsBenign-Eased _ (λ b old it e. ground arith)

  pub set_pr_url-Keeps : (id : ItemId) (url : Option String) → Keeps P (set_pr_url id url)
  unfolding set_pr_url
  set_pr_url-Keeps id url = search (closed_rules, set_pull_requests-Keeps) depth 8

  tell_remaining-Keeps : (id : ItemId) (title : String) → Keeps P (tell_remaining id title)
  unfolding tell_remaining
  tell_remaining-Keeps id title = search closed_rules depth 8

  catch_refusal-Keeps : (m : Action TransitionError ItemId) → Keeps P m → Keeps P (catch_refusal m)
  unfolding catch_refusal
  catch_refusal-Keeps m k = record { at = λ b h. k.at b h }

  finish_merged-Keeps :
      (id : ItemId) (by : String) (pr_number : Option ℕ) → Keeps P (finish_merged id by pr_number)
  unfolding finish_merged
  finish_merged-Keeps id by pr_number = search move_rules depth 10

  after_mark-Keeps :
      (id : ItemId) (by : String) (pr_number : Option ℕ) (item : WorkItem)
      → Keeps P (after_mark id by pr_number item)
  unfolding after_mark
  after_mark-Keeps id by pr_number item =
      search (closed_rules, tell_remaining-Keeps, catch_refusal-Keeps, finish_merged-Keeps) depth 8

  complete_found-Keeps :
      (needle : String) (pr_number : Option ℕ) (by : String) (found : Option ItemId)
      → Keeps P (complete_found needle pr_number by found)
  unfolding complete_found mark_listed_pr_merged
  complete_found-Keeps needle pr_number by none = Keeps-pure none
  complete_found-Keeps needle pr_number by (some id) =
      search (closed_rules, marked, after_mark-Keeps) depth 10
    where
      marked : IsBenign {E = Unit} (λ _ it. ok (mark_listed_pr_merged it needle))
      marked = IsBenign-Eased _ (λ b old it e. ground arith)

  pub complete_for_merged_pr_by-Keeps :
      (pr_url : String) (pr_number : Option ℕ) (by : String)
      → Keeps P (complete_for_merged_pr_by pr_url pr_number by)
  unfolding complete_for_merged_pr_by
  complete_for_merged_pr_by-Keeps pr_url pr_number by =
      search (closed_rules, complete_found-Keeps) depth 10

  requeue_reviewed-Keeps :
      (id : ItemId) (by note : String) (pr_number : Option ℕ)
      → Keeps P (requeue_reviewed id by note pr_number)
  unfolding requeue_reviewed
  requeue_reviewed-Keeps id by note pr_number = search move_rules depth 10

  feedback_found-Keeps :
      (note by : String) (pr_number : Option ℕ) (found : Option ItemId)
      → Keeps P (feedback_found note by pr_number found)
  unfolding feedback_found
  feedback_found-Keeps note by pr_number none = Keeps-pure none
  feedback_found-Keeps note by pr_number (some id) =
      search (closed_rules, fed, catch_refusal-Keeps, requeue_reviewed-Keeps) depth 10
    where
      fed : IsBenign {E = Unit} λ b it. ok (record it {
        notes = it.notes ++ record { at = b.clock; author = by; text = note } ∷ [];
        run_failures = 0;
        escalation = none;
        proposal = none;
      })
      fed = IsBenign-Eased _ (λ b old it e. ground arith)

  pub apply_pr_review_feedback_by-Keeps :
      (pr_url : String) (pr_number : Option ℕ) (review_state by : String)
      → Keeps P (apply_pr_review_feedback_by pr_url pr_number review_state by)
  unfolding apply_pr_review_feedback_by
  apply_pr_review_feedback_by-Keeps pr_url pr_number review_state by =
      search (closed_rules, feedback_found-Keeps) depth 10
