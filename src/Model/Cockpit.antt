-- ===== src/Model/Cockpit.antt =====
-- src/model.rs: the record of the cockpit session.
use sandboard.Prelude.{ℕ, String, Option, none, some, Bool, if◌then◌else◌, ◌==◌}
use sandboard.Prelude.Text.{trim, is_empty}

pub data CockpitSessionStatus : Type 0 where
  running parked : CockpitSessionStatus

pub data CockpitSandboxPhase : Type 0 where
  idle starting waiting_for_delete provisioning ready stopping error : CockpitSandboxPhase

pub record CockpitSession : Type 0 where
  pub environment : Option String
  pub conversation_id : Option String
  pub status : CockpitSessionStatus
  pub sandbox_phase : CockpitSandboxPhase
  pub phase_detail : Option String
  pub phase_since : ℕ
  pub created_at : ℕ
  pub updated_at : ℕ

abbrev phase_discriminant : CockpitSandboxPhase → ℕ
phase_discriminant CockpitSandboxPhase.idle = 0
phase_discriminant CockpitSandboxPhase.starting = 1
phase_discriminant CockpitSandboxPhase.waiting_for_delete = 2
phase_discriminant CockpitSandboxPhase.provisioning = 3
phase_discriminant CockpitSandboxPhase.ready = 4
phase_discriminant CockpitSandboxPhase.stopping = 5
phase_discriminant CockpitSandboxPhase.error = 6

abbrev pub phase_eq : CockpitSandboxPhase → CockpitSandboxPhase → Bool
phase_eq a b = phase_discriminant a == phase_discriminant b

unfoldable pub normalize_cockpit_field : Option String → Option String
normalize_cockpit_field none = none
normalize_cockpit_field (some s) = let t = trim s in if is_empty t then none else some t

-- The phase of a new session: an environment that is already there is ready.
abbrev pub initial_phase : Option String → CockpitSandboxPhase
initial_phase none = CockpitSandboxPhase.starting
initial_phase (some _) = CockpitSandboxPhase.ready

-- `CockpitSession::new`, at the time `now`
unfoldable pub new_session : ℕ → Option String → Option String → CockpitSession
new_session now environment conversation_id = record {
  environment = normalize_cockpit_field environment;
  conversation_id = normalize_cockpit_field conversation_id;
  status = CockpitSessionStatus.running;
  sandbox_phase = initial_phase (normalize_cockpit_field environment);
  phase_detail = none;
  phase_since = now;
  created_at = now;
  updated_at = now;
}

unfoldable pub set_sandbox_phase :
    ℕ → CockpitSandboxPhase → Option String → CockpitSession → CockpitSession
set_sandbox_phase now phase detail session = record session {
  sandbox_phase = phase;
  phase_since = if phase_eq session.sandbox_phase phase then session.phase_since else now;
  phase_detail = normalize_cockpit_field detail;
  updated_at = now;
}
