-- ===== src/Board/Cockpit.antt =====
-- src/store.rs: the cockpit session, a singleton on the board.
pub mod Session
use sandboard.Prelude.{String, Option, none, some, true}
use sandboard.Prelude.Result.{ok}
use sandboard.Machine.{
  cockpit_error_text, check_cockpit_create, check_cockpit_present, check_cockpit_park,
  check_cockpit_resume,
}
use sandboard.Model.Cockpit.{
  CockpitSession, CockpitSessionStatus, CockpitSandboxPhase, new_session, set_sandbox_phase,
  normalize_cockpit_field,
}
use sandboard.Board.Core.{Board, Action, pure, lift, gets, modify, ◌>>=◌, ◌>>◌, map_error}

unfoldable pub save_session : Option CockpitSession → Board → Board
save_session session b = record b {
  state = record b.state { cockpit_session = session };
  dirty = true;
}

unfoldable pub create_cockpit_session : Option String → Option String → Action String CockpitSession
unfolding save_session
create_cockpit_session environment conversation_id = do
  checked ← gets (λ b. check_cockpit_create b.state.cockpit_session)
  map_error cockpit_error_text (lift checked)
  session ← gets (λ b. new_session b.clock environment conversation_id)
  modify (save_session (some session))
  pure session

-- The session that has to be there.
unfoldable pub present : Action String CockpitSession
present = do
  checked ← gets (λ b. check_cockpit_present b.state.cockpit_session)
  map_error cockpit_error_text (lift checked)

abbrev renew : Option String → Option String → Option String
renew none old = old
renew (some new) old = normalize_cockpit_field (some new)

unfoldable pub update_cockpit_session : Option String → Option String → Action String CockpitSession
unfolding present save_session
update_cockpit_session environment conversation_id = do
  session ← present
  out ← gets (λ b. record session {
    environment = renew environment session.environment;
    conversation_id = renew conversation_id session.conversation_id;
    updated_at = b.clock;
  })
  modify (save_session (some out))
  pure out

unfoldable pub set_phase :
    CockpitSandboxPhase
    → Option String
    → Option CockpitSession
    → Board
    → Option CockpitSession × Board
set_phase phase detail none b = (none, b)
set_phase phase detail (some session) b =
    let out = set_sandbox_phase b.clock phase detail session in
    (some out, save_session (some out) b)

unfoldable pub set_cockpit_sandbox_phase :
    CockpitSandboxPhase → Option String → Action String (Option CockpitSession)
unfolding set_phase save_session
set_cockpit_sandbox_phase phase detail b =
    let (out, b') = set_phase phase detail b.state.cockpit_session b in (ok out, b')

unfoldable pub set_status : CockpitSessionStatus → CockpitSession → Action String CockpitSession
set_status status session = do
  out ← gets (λ b. record session { status = status; updated_at = b.clock })
  modify (save_session (some out))
  pure out

unfoldable pub park_cockpit_session : Action String CockpitSession
unfolding present set_status save_session
park_cockpit_session = do
  session ← present
  map_error cockpit_error_text (lift (check_cockpit_park session))
  set_status CockpitSessionStatus.parked session

unfoldable pub resume_cockpit_session : Action String CockpitSession
unfolding present set_status save_session
resume_cockpit_session = do
  session ← present
  map_error cockpit_error_text (lift (check_cockpit_resume session))
  set_status CockpitSessionStatus.running session

unfoldable pub stop : Option CockpitSession → Board → Board
stop none b = b
stop (some session) b = save_session none b

-- The phase `Stopping` is set on the record that is dropped right after.
unfoldable pub stop_cockpit_session : Action String Unit
unfolding stop save_session
stop_cockpit_session b = (ok tt, stop b.state.cockpit_session b)
