-- ===== src/Board/Invariant/Session.antt =====
-- A closed predicate survives the methods of the cockpit session and those that write single fields.
use sandboard.Prelude.{String, Option, none, some, List, arith}
use sandboard.Map.{nat_key}
use sandboard.Model.Item.{ItemId}
use sandboard.Board.Core.{Board}
use sandboard.Board.Core.Keeps.{Keeps, Keeps-bind}
use sandboard.Board.Invariant.Benign.{IsBenign-Eased}
use sandboard.Board.Invariant.Closed.{Closed, closed_rules}
use sandboard.Model.PullRequest.{PullRequest}
use sandboard.Model.Cockpit.{CockpitSession, CockpitSessionStatus, CockpitSandboxPhase}
use sandboard.Board.Cockpit.{
  create_cockpit_session, present, update_cockpit_session, set_phase, set_cockpit_sandbox_phase,
  set_status, park_cockpit_session, resume_cockpit_session, stop, stop_cockpit_session,
}
use sandboard.Board.Fields.{
  set_environment, set_conversation_id, set_pull_requests, clear_run_failures, update_item,
}
use sandboard.Board.Invariant.Creation.{touch-Keeps}
use sandboard.Board.Invariant.Closed.{Closed-save_session, Keeps-change_card}

module _ {P : Board → Type 0} (c : Closed P) where
  pub create_cockpit_session-Keeps :
      (environment conversation_id : Option String)
      → Keeps P (create_cockpit_session environment conversation_id)
  unfolding create_cockpit_session
  create_cockpit_session-Keeps environment conversation_id = search closed_rules depth 10

  present-Keeps : Keeps P present
  unfolding present
  present-Keeps = search closed_rules

  pub update_cockpit_session-Keeps :
      (environment conversation_id : Option String)
      → Keeps P (update_cockpit_session environment conversation_id)
  unfolding update_cockpit_session
  update_cockpit_session-Keeps environment conversation_id =
      search (closed_rules, present-Keeps) depth 10

  set_phase-holds :
      (phase : CockpitSandboxPhase) (detail : Option String) (o : Option CockpitSession) (b : Board)
      → P b
      → P (set_phase phase detail o b).1
  unfolding set_phase
  set_phase-holds phase detail none b h = h
  set_phase-holds phase detail (some session) b h = Closed-save_session c _ b h

  pub set_cockpit_sandbox_phase-Keeps :
      (phase : CockpitSandboxPhase) (detail : Option String)
      → Keeps P (set_cockpit_sandbox_phase phase detail)
  unfolding set_cockpit_sandbox_phase
  set_cockpit_sandbox_phase-Keeps phase detail = record {
    at = λ b h. set_phase-holds phase detail b.state.cockpit_session b h;
  }

  set_status-Keeps :
      (status : CockpitSessionStatus) (session : CockpitSession)
      → Keeps P (set_status status session)
  unfolding set_status
  set_status-Keeps status session = search closed_rules depth 8

  pub park_cockpit_session-Keeps : Keeps P park_cockpit_session
  unfolding park_cockpit_session
  park_cockpit_session-Keeps = search (closed_rules, present-Keeps, set_status-Keeps) depth 8

  pub resume_cockpit_session-Keeps : Keeps P resume_cockpit_session
  unfolding resume_cockpit_session
  resume_cockpit_session-Keeps = search (closed_rules, present-Keeps, set_status-Keeps) depth 8

  stop-holds : (o : Option CockpitSession) (b : Board) → P b → P (stop o b)
  unfolding stop
  stop-holds none b h = h
  stop-holds (some session) b h = Closed-save_session c none b h

  pub stop_cockpit_session-Keeps : Keeps P stop_cockpit_session
  unfolding stop_cockpit_session
  stop_cockpit_session-Keeps = record { at = λ b h. stop-holds b.state.cockpit_session b h }

  pub set_environment-Keeps :
      (id : ItemId) (sandbox : Option String) → Keeps P (set_environment id sandbox)
  unfolding set_environment
  set_environment-Keeps id sandbox =
      touch-Keeps c id _ (IsBenign-Eased _ (λ b old it e. ground arith))

  pub set_conversation_id-Keeps :
      (id : ItemId) (conversation : Option String) → Keeps P (set_conversation_id id conversation)
  unfolding set_conversation_id
  set_conversation_id-Keeps id conversation =
      touch-Keeps c id _ (IsBenign-Eased _ (λ b old it e. ground arith))

  pub set_pull_requests-Keeps :
      (id : ItemId) (prs : List PullRequest) → Keeps P (set_pull_requests id prs)
  unfolding set_pull_requests
  set_pull_requests-Keeps id prs =
      touch-Keeps c id _ (IsBenign-Eased _ (λ b old it e. ground arith))

  pub clear_run_failures-Keeps : (id : ItemId) → Keeps P (clear_run_failures id)
  unfolding clear_run_failures
  clear_run_failures-Keeps id = touch-Keeps c id _ (IsBenign-Eased _ (λ b old it e. ground arith))

  pub update_item-Keeps :
      (id : ItemId) (title intent definition_of_done engine project_prompt : Option String)
      → Keeps P (update_item id title intent definition_of_done engine project_prompt)
  unfolding update_item
  update_item-Keeps id title intent definition_of_done engine project_prompt =
      Keeps-bind _ _ (Keeps-change_card c _ id _ (IsBenign-Eased _ (λ b old it e. ground arith)))
        (λ _. search closed_rules depth 6)
