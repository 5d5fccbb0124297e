-- ===== src/Supervisor/Runs.antt =====
-- src/supervisor.rs: who owns a run, why it ended, and which sandboxes are kept.
pub mod Kept
use Prim.Native.Char.{Char, code}
use sandboard.Prelude.{
  ℕ, String, Option, none, some, List, [], ◌∷◌, Bool, true, false, not, ◌&&◌, ◌||◌, any, leb, ◌==◌,
  if◌then◌else◌,
}
use sandboard.Prelude.Int.{ℤ, pos, negsuc}
use sandboard.Prelude.Text.{format, show_ℕ, contains, str_eq, opt_str_eq, starts_with, to_lowercase}
use sandboard.Prelude.Text.Parse.{parse_i32, split_once, take_while}
use sandboard.Model.State.{State, state_eq, is_terminal}
use sandboard.Model.Item.{ItemId, WorkItem}
use sandboard.Model.Cockpit.{CockpitSession, CockpitSessionStatus}
use sandboard.Machine.{debug_state}
use sandboard.Board.Transition.{get_card}
use sandboard.Board.Core.{Board, Action, pure, raise, gets, ◌>>=◌}

unfoldable pub board_still_owns_run : State → Bool
board_still_owns_run st = state_eq st State.claimed || state_eq st State.running

unfoldable pub is_supervisor_cancel : String → Bool
is_supervisor_cancel error = contains error "run cancelled:"

is_code_char : Char → Bool
is_code_char c = leb b'0' (code c) && leb (code c) b'9' || code c == b'-'

-- The number in the first `agent exited {code}: …` of the text.
unfoldable pub agent_exit_code : String → Option ℤ
unfolding is_code_char
agent_exit_code error = elim (split_once error "agent exited ") [
  | none ↦ none
  | some parts ↦ parse_i32 (take_while is_code_char parts.1)
]

is_interrupt : Option ℤ → Bool
is_interrupt none = false
is_interrupt (some (pos n)) = n == 130 || n == 143
is_interrupt (some (negsuc n)) = n == 0

unfoldable pub is_supervisor_detach : String → Bool
unfolding agent_exit_code is_interrupt
is_supervisor_detach error = is_interrupt (agent_exit_code error)

unfoldable pub infrastructure_signs : List String
infrastructure_signs =
    "podman.sock" ∷ "connection error" ∷ "connection closed before message completed"
    ∷ "create sandbox failed" ∷ "gateway" ∷ "exec relay closed" ∷ "sandbox is not ready"
    ∷ "the service is currently unavailable" ∷ "ssh tar extract exited" ∷ "ssh exited with status"
    ∷ "phase: deleting" ∷ "github app token sync failed (infrastructure)" ∷ "h2 protocol error"
    ∷ "broken pipe" ∷ "error reading a body from connection" ∷ []

unfoldable pub is_infrastructure : String → Bool
unfolding infrastructure_signs
is_infrastructure error =
    let lower = to_lowercase error in any (λ s. contains lower s) infrastructure_signs

-- A run goes on only while the board has the card with an agent.
unfoldable pub ensure_owned : ItemId → Option WorkItem → Action String Unit
unfolding board_still_owns_run
ensure_owned id none =
    raise (format ("run cancelled: card #" ∷ show_ℕ id ∷ " gone from the board" ∷ []))
ensure_owned id (some item) =
    if board_still_owns_run item.state
    then pure tt
    else raise (
        format (
          "run cancelled: card left "
          ∷ debug_state item.state
          ∷ " (deadline exceeded or halted)"
          ∷ []))

unfoldable pub ensure_board_owns_run : ItemId → Action String Unit
unfolding ensure_owned
ensure_board_owns_run id = do item ← gets (λ b. get_card b id); ensure_owned id item

unfoldable pub adoptable : Option WorkItem → String → Option WorkItem
adoptable none sandbox = none
adoptable (some i) sandbox =
    if (state_eq i.state State.claimed || state_eq i.state State.running)
      && opt_str_eq i.environment (some sandbox)
    then some i
    else none

unfoldable pub card_branch_name : String → String
card_branch_name id = format ("sandboard" ∷ "/card-" ∷ id ∷ [])

unfoldable pub card_sandbox_name : String → String → String
card_sandbox_name id attempt = format ("sb" ∷ "-card-" ∷ id ∷ "-a" ∷ attempt ∷ [])

unfoldable pub card_sandbox_stem : String → String
card_sandbox_stem id = format ("sb" ∷ "-card-" ∷ id ∷ "-" ∷ [])

unfoldable pub legacy_card_sandbox_stem : String → String
legacy_card_sandbox_stem id = format ("sandboard" ∷ "-card-" ∷ id ∷ "-" ∷ [])

unfoldable pub cockpit_sandbox_name : String
cockpit_sandbox_name = "sandboard-cockpit"

unfoldable pub keeps_named : WorkItem → Option String → String → Bool
unfolding card_sandbox_stem legacy_card_sandbox_stem
keeps_named i none sandbox = false
keeps_named i (some env) sandbox =
    str_eq env sandbox
    || starts_with sandbox (card_sandbox_stem (show_ℕ i.id))
    || starts_with sandbox (legacy_card_sandbox_stem (show_ℕ i.id))

unfoldable pub should_keep_sandbox : Option WorkItem → String → Bool
unfolding keeps_named
should_keep_sandbox none sandbox = false
should_keep_sandbox (some i) sandbox =
    if is_terminal i.state then false else keeps_named i i.environment sandbox

unfoldable pub should_keep_cockpit_sandbox : Option CockpitSession → String → Bool
unfolding cockpit_sandbox_name
should_keep_cockpit_sandbox none sandbox = false
should_keep_cockpit_sandbox (some s) sandbox =
    if opt_str_eq s.environment (some sandbox) then true else str_eq sandbox cockpit_sandbox_name

superseded : Option ℕ → CockpitSession → Bool
superseded none session = false
superseded (some expected) session = not (session.created_at == expected)

running_or_raise : CockpitSessionStatus → Action String Unit
running_or_raise CockpitSessionStatus.running = pure tt
running_or_raise CockpitSessionStatus.parked = raise "cockpit parked"

ensure_session : Option ℕ → Option CockpitSession → Action String Unit
unfolding superseded running_or_raise
ensure_session expected none = raise "cockpit stopped"
ensure_session expected (some session) =
    if superseded expected session
    then raise "cockpit session superseded"
    else running_or_raise session.status

unfoldable pub ensure_cockpit_session_running : Option ℕ → Action String Unit
unfolding ensure_session
ensure_cockpit_session_running expected_created_at = do
  session ← gets (λ b. b.state.cockpit_session)
  ensure_session expected_created_at session
