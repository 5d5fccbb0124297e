-- ===== src/Board/Invariant/Plans.antt =====
-- A closed predicate survives the verbs on plans and approvals.
use Prim.Native.Char.{Char}
use sandboard.Prelude.{
  ℕ, zero, suc, String, Option, none, some, List, [], ◌∷◌, Bool, true, false, arith,
}
use sandboard.Prelude.Result.{ok}
use sandboard.Model.Plan.{PlanTaskSpec, PlanArtifact}
use sandboard.Model.Item.{ItemId, WorkItem}
use sandboard.Board.Plan.{
  resolve_initial_plan_id, propose_plan, heal_epic, heal_epics, heal_completed_epics,
}
use sandboard.Board.Review.{
  approve_proposal, approve_work, drop_project_plan, adopt_plan, adopt_unless, approve_seed,
  approve_plan_then, approve_plan_by, approve_legacy, approve_review_with, approve_review_round,
  approve_review_within, approve_review, approve_plan,
}
use sandboard.Board.Split.{SplitChildSpec, refuse_published, propose_split}
use sandboard.Board.Core.{Board, Action}
use sandboard.Board.Core.Keeps.{Keeps, Keeps-pure, Keeps-raise, Keeps-bind}
use sandboard.Board.Invariant.Benign.{IsBenign-Eased}
use sandboard.Board.Invariant.Closed.{Closed, IsBenign, closed_rules}
use sandboard.Board.Invariant.Creation.{set_proposal-Keeps}
use sandboard.Board.Invariant.Moving.{move_rules}
use sandboard.Board.Invariant.Agent.{escalate-Keeps}

module _ {P : Board → Type 0} (c : Closed P) where
  pub resolve_initial_plan_id-Keeps : (id : ItemId) → Keeps P (resolve_initial_plan_id id)
  unfolding resolve_initial_plan_id
  resolve_initial_plan_id-Keeps id = search closed_rules depth 10

  pub propose_plan-Keeps :
      (id : ItemId) (summary : String) (tasks : List PlanTaskSpec) (cancel_keys : List String)
      → Keeps P (propose_plan id summary tasks cancel_keys)
  unfolding propose_plan
  propose_plan-Keeps id summary tasks cancel_keys =
      search (closed_rules, resolve_initial_plan_id-Keeps, set_proposal-Keeps) depth 16

  heal_epic-Keeps : (project : WorkItem) → Keeps P (heal_epic project)
  unfolding heal_epic
  heal_epic-Keeps project = search move_rules depth 12

  heal_epics-Keeps : (projects : List WorkItem) → Keeps P (heal_epics projects)
  unfolding heal_epics
  heal_epics-Keeps [] = Keeps-pure 0
  heal_epics-Keeps (project ∷ rest) =
      Keeps-bind _ _ (heal_epic-Keeps project)
        λ healed. Keeps-bind _ _ (heal_epics-Keeps rest) λ later. Keeps-pure _

  pub heal_completed_epics-Keeps : Keeps P heal_completed_epics
  unfolding heal_completed_epics
  heal_completed_epics-Keeps = search (closed_rules, heal_epics-Keeps) depth 8

  approve_proposal-Keeps : (id : ItemId) → Keeps P (approve_proposal id)
  unfolding approve_proposal
  approve_proposal-Keeps id = search move_rules depth 10

  approve_work-Keeps : (id : ItemId) → Keeps P (approve_work id)
  unfolding approve_work
  approve_work-Keeps id = search move_rules depth 10

  unplanned-IsBenign : IsBenign {E = Unit} (λ _ p. ok (record p { plan = none }))
  unplanned-IsBenign = IsBenign-Eased _ (λ b old it e. ground arith)

  drop_project_plan-Keeps : (parent : Option ItemId) → Keeps P (drop_project_plan parent)
  unfolding drop_project_plan
  drop_project_plan-Keeps none = Keeps-pure tt
  drop_project_plan-Keeps (some pid) = search (closed_rules, unplanned-IsBenign) depth 10

  adopt_plan-Keeps :
      (seed_id : ItemId) (parent : Option ItemId) (plan : Option PlanArtifact)
      → Keeps P (adopt_plan seed_id parent plan)
  unfolding adopt_plan
  adopt_plan-Keeps seed_id parent none = Keeps-pure tt
  adopt_plan-Keeps seed_id parent (some plan) =
      search (closed_rules, set_proposal-Keeps, drop_project_plan-Keeps) depth 8

  adopt_unless-Keeps :
      (has : Bool) (seed_id : ItemId) (parent : Option ItemId)
      → Keeps P (adopt_unless has seed_id parent)
  unfolding adopt_unless
  adopt_unless-Keeps true seed_id parent = Keeps-pure tt
  adopt_unless-Keeps false seed_id parent = search (closed_rules, adopt_plan-Keeps) depth 8

  module _ (review : ItemId → Action String WorkItem)
      (review-Keeps : (id : ItemId) → Keeps P (review id)) where
    approve_seed-Keeps : (id : ItemId) → Keeps P (approve_seed review id)
    unfolding approve_seed
    approve_seed-Keeps id = search (closed_rules, review-Keeps) depth 12

    pub approve_plan_by-Keeps : (id : ItemId) → Keeps P (approve_plan_by review id)
    unfolding approve_plan_by approve_plan_then
    approve_plan_by-Keeps id =
        search (closed_rules, resolve_initial_plan_id-Keeps, adopt_unless-Keeps, approve_seed-Keeps)
          depth 14

    approve_legacy-Keeps :
        (id : ItemId) (parent : Option ItemId)
        → Keeps P (approve_legacy (approve_plan_by review) id parent)
    unfolding approve_legacy
    approve_legacy-Keeps id none = approve_work-Keeps id
    approve_legacy-Keeps id (some parent) = search (closed_rules, approve_plan_by-Keeps) depth 12

    approve_review_round-Keeps : (id : ItemId) → Keeps P (approve_review_round review id)
    unfolding approve_review_round approve_review_with
    approve_review_round-Keeps id =
        search (closed_rules, approve_proposal-Keeps, approve_work-Keeps, approve_legacy-Keeps)
          depth 14

  approve_review_within-Keeps :
      (rounds : ℕ) (id : ItemId) → Keeps P (approve_review_within rounds id)
  unfolding approve_review_within
  approve_review_within-Keeps zero id = Keeps-raise _
  approve_review_within-Keeps (suc rounds) id =
      approve_review_round-Keeps _ (approve_review_within-Keeps rounds) id

  pub approve_review-Keeps : (id : ItemId) → Keeps P (approve_review id)
  unfolding approve_review
  approve_review-Keeps id = approve_review_within-Keeps 2 id

  pub approve_plan-Keeps : (id : ItemId) → Keeps P (approve_plan id)
  unfolding approve_plan
  approve_plan-Keeps id = approve_plan_by-Keeps approve_review approve_review-Keeps id

  refuse_published-Keeps :
      (id : ItemId) (agent_id : String) (url : Option String)
      → Keeps P (refuse_published id agent_id url)
  unfolding refuse_published
  refuse_published-Keeps id agent_id none = Keeps-pure tt
  refuse_published-Keeps id agent_id (some url) = search (closed_rules, escalate-Keeps) depth 8

  pub propose_split-Keeps :
      (is_alphanumeric : Char → Bool) (id : ItemId) (agent_id : String)
      (children : List SplitChildSpec) (max_children : ℕ)
      → Keeps P (propose_split is_alphanumeric id agent_id children max_children)
  unfolding propose_split
  propose_split-Keeps is_alphanumeric id agent_id children max_children =
      search (move_rules, refuse_published-Keeps, set_proposal-Keeps) depth 30
