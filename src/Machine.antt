-- ===== src/Machine.antt =====
-- src/machine.rs: the legal edges of the lifecycle, the guards of a transition, and the rules of the
-- cockpit session. What they guarantee is in the child `Rules`.
pub mod Rules
use sandboard.Prelude.{
  String, Option, none, some, List, [], ◌∷◌, Bool, true, false, not, ◌&&◌, ◌||◌, is_none, is_empty,
  if◌then◌else◌,
}
use sandboard.Prelude.Text.{format, show_ℕ, show_list}
use sandboard.Prelude.Result.{Result, ok, err}
use sandboard.Model.State.{State, state_eq}
use sandboard.Model.Item.{ItemId, WorkItem}
use sandboard.Model.Cockpit.{CockpitSession, CockpitSessionStatus}
use sandboard.Model.State.State.{
  draft, shaping, backlog, claimed, running, splitting, needs_human, review, done, retired,
}

-- The `match` of `allowed`, without the edges to Retired.
legal_edge : State → State → Bool
legal_edge draft shaping = true
legal_edge shaping backlog = true
legal_edge shaping needs_human = true
legal_edge backlog claimed = true
legal_edge backlog shaping = true
legal_edge claimed running = true
legal_edge claimed splitting = true
legal_edge claimed needs_human = true
legal_edge claimed review = true
legal_edge claimed backlog = true
legal_edge running running = true
legal_edge running backlog = true
legal_edge running splitting = true
legal_edge running needs_human = true
legal_edge running review = true
legal_edge splitting backlog = true
legal_edge splitting shaping = true
legal_edge splitting done = true
legal_edge splitting retired = true
legal_edge needs_human running = true
legal_edge needs_human backlog = true
legal_edge review done = true
legal_edge shaping done = true
legal_edge backlog done = true
legal_edge needs_human done = true
legal_edge running done = true
legal_edge review backlog = true
legal_edge review needs_human = true
legal_edge done review = true
legal_edge retired draft = true
legal_edge retired shaping = true
legal_edge retired backlog = true
legal_edge retired review = true
legal_edge retired done = true
legal_edge _ _ = false

unfoldable pub allowed : State → State → Bool
unfolding legal_edge
allowed source to =
    if state_eq to retired then not (state_eq source retired) else legal_edge source to

unfoldable pub unarchive_target : State → Bool → Bool → State
unarchive_target claimed has_children has_dod =
    if not has_children && not has_dod then shaping else backlog
unarchive_target running has_children has_dod =
    if not has_children && not has_dod then shaping else backlog
unarchive_target splitting has_children has_dod =
    if not has_children && not has_dod then shaping else backlog
unarchive_target needs_human has_children has_dod =
    if not has_children && not has_dod then shaping else backlog
unarchive_target retired has_children has_dod =
    if not has_children && not has_dod then shaping else backlog
unarchive_target prior has_children has_dod = prior

pub data TransitionError : Type 0 where
  illegal : ItemId → State → State → TransitionError
  container_not_claimable : ItemId → TransitionError
  leaf_needs_dod : ItemId → TransitionError
  blocked : ItemId → List ItemId → TransitionError
  no_such_item : ItemId → TransitionError
  parked : ItemId → TransitionError

-- `Debug` of a state.
unfoldable pub debug_state : State → String
debug_state draft = "Draft"
debug_state shaping = "Shaping"
debug_state backlog = "Backlog"
debug_state claimed = "Claimed"
debug_state running = "Running"
debug_state splitting = "Splitting"
debug_state needs_human = "NeedsHuman"
debug_state review = "Review"
debug_state done = "Done"
debug_state retired = "Retired"

-- The `#[error]` texts, by which `to_string` prints an error.
unfoldable pub error_text : TransitionError → String
unfolding debug_state
error_text (illegal id source to) = format (
    "illegal transition "
    ∷ debug_state source
    ∷ " -> "
    ∷ debug_state to
    ∷ " for #"
    ∷ show_ℕ id
    ∷ [])
error_text (container_not_claimable id) =
    format ("#" ∷ show_ℕ id ∷ " has children, so it is a container and cannot be claimed" ∷ [])
error_text (leaf_needs_dod id) =
    format ("leaf #" ∷ show_ℕ id ∷ " needs a definition of done before it can leave shaping" ∷ [])
error_text (blocked id blockers) =
    format ("#" ∷ show_ℕ id ∷ " is blocked by " ∷ show_list blockers ∷ [])
error_text (no_such_item id) = format ("no work item #" ∷ show_ℕ id ∷ [])
error_text (parked id) = format ("#" ∷ show_ℕ id ∷ " is parked; resume before claiming" ∷ [])

-- States in which an agent is actively holding the card.
unfoldable pub requires_claimable : State → Bool
requires_claimable claimed = true
requires_claimable running = true
requires_claimable splitting = true
requires_claimable _ = false

-- The guards of a transition, in the order of the source.
unfoldable pub check : WorkItem → State → Bool → List ItemId → Result TransitionError Unit
check item to has_children unresolved_blockers =
    if not (allowed item.state to)
    then err (illegal item.id item.state to)
    else if has_children && requires_claimable to
    then err (container_not_claimable item.id)
    else if state_eq to backlog && not has_children && is_none item.definition_of_done
    then err (leaf_needs_dod item.id)
    else if state_eq to claimed && not (is_empty unresolved_blockers)
    then err (blocked item.id unresolved_blockers)
    else ok tt

pub data CockpitSessionError : Type 0 where
  already_exists not_found already_parked not_parked : CockpitSessionError

unfoldable pub cockpit_error_text : CockpitSessionError → String
cockpit_error_text CockpitSessionError.already_exists = "cockpit session already exists"
cockpit_error_text CockpitSessionError.not_found = "no cockpit session"
cockpit_error_text CockpitSessionError.already_parked = "cockpit session is already parked"
cockpit_error_text CockpitSessionError.not_parked = "cockpit session is not parked"

unfoldable pub check_cockpit_create : Option CockpitSession → Result CockpitSessionError Unit
check_cockpit_create none = ok tt
check_cockpit_create (some _) = err CockpitSessionError.already_exists

unfoldable pub check_cockpit_present :
    Option CockpitSession → Result CockpitSessionError CockpitSession
check_cockpit_present none = err CockpitSessionError.not_found
check_cockpit_present (some session) = ok session

unfoldable pub park_status : CockpitSessionStatus → Result CockpitSessionError Unit
park_status CockpitSessionStatus.running = ok tt
park_status CockpitSessionStatus.parked = err CockpitSessionError.already_parked

unfoldable pub check_cockpit_park : CockpitSession → Result CockpitSessionError Unit
unfolding park_status
check_cockpit_park session = park_status session.status

unfoldable pub resume_status : CockpitSessionStatus → Result CockpitSessionError Unit
resume_status CockpitSessionStatus.parked = ok tt
resume_status CockpitSessionStatus.running = err CockpitSessionError.not_parked

unfoldable pub check_cockpit_resume : CockpitSession → Result CockpitSessionError Unit
unfolding resume_status
check_cockpit_resume session = resume_status session.status
