-- ===== src/Board/Cockpit/Session.antt =====
-- src/store.rs: the cockpit session through its calls.
use sandboard.Prelude.{◌≡◌, refl, some}
use sandboard.Prelude.Result.{ok}
use sandboard.Machine.{
  check_cockpit_present, check_cockpit_park, check_cockpit_resume, park_status, resume_status,
}
use sandboard.Model.Cockpit.{CockpitSession, CockpitSessionStatus}
use sandboard.Board.Cockpit.{
  present, park_cockpit_session, resume_cockpit_session, set_status, save_session,
}
use sandboard.Board.Core.{Board, ◌>>=◌, ◌>>◌, map_error}

-- A running session that is parked and resumed is the session as it was, but for the time of its last
-- update, and nothing else on the board has changed but that it is to be saved.
pub park-resume :
    (b : Board) (session : CockpitSession)
    → b.state.cockpit_session ≡ some session
    → session.status ≡ CockpitSessionStatus.running
    → (park_cockpit_session >> resume_cockpit_session) b ≡ (
      ok (record session { updated_at = b.clock }),
      save_session (some (record session { updated_at = b.clock })) b,
    )
unfolding park_cockpit_session resume_cockpit_session present set_status save_session
    check_cockpit_present check_cockpit_park check_cockpit_resume park_status resume_status ◌>>=◌
    map_error
park-resume b session there running = rw (there, running) refl
