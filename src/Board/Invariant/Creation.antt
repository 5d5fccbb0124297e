-- ===== src/Board/Invariant/Creation.antt =====
-- A closed predicate survives the creation of cards, and the Tasks made from a proposal.
use sandboard.Prelude.{String, Option, none, some, List, [], ◌∷◌, Bool, ◌&&◌, arith, if◌then◌else◌}
use sandboard.Prelude.Result.{Result, ok, err}
use sandboard.Map.{Map}
use sandboard.Model.Plan.{PlanTaskSpec, TaskProposal}
use sandboard.Model.State.{is_terminal}
use sandboard.Model.Item.{ItemId, WorkItem, Origin, is_initial_plan_task}
use sandboard.Board.Create.{seed_new, seed_or_keep, seed_initial_plan, create}
use sandboard.Board.Fields.{touch, set_blocked_by}
use sandboard.Board.Proposal.{
  set_proposal, create_sibling, reuse_or_create, make_siblings, Made, add_card, settle, block_by,
  wire_blockers, materialize_proposal,
}
use sandboard.Board.Core.{Board}
use sandboard.Board.Core.Keeps.{Keeps, Keeps-pure, Keeps-bind}
use sandboard.Board.Invariant.Benign.{IsBenign-fields, IsBenign-unless, Untouched-IsVersion}
use sandboard.Board.Invariant.Closed.{Closed, IsBenign, closed_rules, Keeps-transition_plain}

module _ {P : Board → Type 0} (c : Closed P) where
  seed_new-Keeps : (project : WorkItem) → Keeps P (seed_new project)
  unfolding seed_new
  seed_new-Keeps project = search (closed_rules, Keeps-transition_plain) depth 12

  seed_or_keep-Keeps : (o : Option WorkItem) (project : WorkItem) → Keeps P (seed_or_keep o project)
  unfolding seed_or_keep
  seed_or_keep-Keeps none project = seed_new-Keeps project
  seed_or_keep-Keeps (some existing) project = Keeps-pure existing

  pub seed_initial_plan-Keeps : (id : ItemId) → Keeps P (seed_initial_plan id)
  unfolding seed_initial_plan
  seed_initial_plan-Keeps id = search (closed_rules, seed_or_keep-Keeps) depth 12

  pub create-Keeps :
      (parent : Option ItemId) (title intent : String) (dod : Option String) (origin : Origin)
      (above_line : Bool) (capability : Option String)
      → Keeps P (create parent title intent dod origin above_line capability)
  unfolding create
  create-Keeps parent title intent dod origin above_line capability =
      search (closed_rules, seed_initial_plan-Keeps) depth 12

  pub touch-Keeps :
      (id : ItemId) (f : WorkItem → Result Unit WorkItem)
      → IsBenign (λ _ it. f it)
      → Keeps P (touch id f)
  unfolding touch
  touch-Keeps id f benign = search closed_rules

  pub set_blocked_by-Keeps :
      (id : ItemId) (blockers : List ItemId) → Keeps P (set_blocked_by id blockers)
  unfolding set_blocked_by
  set_blocked_by-Keeps id blockers =
      touch-Keeps id _
        (IsBenign-fields (λ _ it. record it { blocked_by = blockers }) (λ b old. ground arith))

  pub set_proposal-Keeps :
      (id : ItemId) (proposal : TaskProposal) → Keeps P (set_proposal id proposal)
  unfolding set_proposal
  set_proposal-Keeps id proposal = search (closed_rules, frozen) depth 10
    where
      frozen : IsBenign {E = String} (λ _ it.
          if is_initial_plan_task it && is_terminal it.state
          then err "Initial plan already accepted — proposal is frozen"
          else ok (record it { proposal = some proposal }))
      frozen =
          IsBenign-unless (λ _ it. is_initial_plan_task it && is_terminal it.state) _
            (λ _ it. record it { proposal = some proposal })
            (λ b old _ h. Untouched-IsVersion old _ h (ground arith))

  create_sibling-Keeps :
      (project_id : ItemId) (card : WorkItem) (by : String) (origin : Origin) (spec : PlanTaskSpec)
      → Keeps P (create_sibling project_id card by origin spec)
  unfolding create_sibling
  create_sibling-Keeps project_id card by origin spec =
      search (closed_rules, Keeps-transition_plain) depth 10

  reuse_or_create-Keeps :
      (project_id : ItemId) (card : WorkItem) (by : String) (origin : Origin) (spec : PlanTaskSpec)
      (o : Option WorkItem)
      → Keeps P (reuse_or_create project_id card by origin spec o)
  unfolding reuse_or_create
  reuse_or_create-Keeps project_id card by origin spec none =
      create_sibling-Keeps project_id card by origin spec
  reuse_or_create-Keeps project_id card by origin spec (some existing) = Keeps-pure existing

  make_siblings-Keeps :
      (project_id : ItemId) (card : WorkItem) (by : String) (origin : Origin)
      (existing : List WorkItem) (specs : List PlanTaskSpec) (m : Made)
      → Keeps P (make_siblings project_id card by origin existing specs m)
  unfolding make_siblings
  make_siblings-Keeps project_id card by origin existing [] m = Keeps-pure m
  make_siblings-Keeps project_id card by origin existing (spec ∷ rest) m =
      Keeps-bind _ _ (reuse_or_create-Keeps project_id card by origin spec _) (λ sibling.
        make_siblings-Keeps project_id card by origin existing rest (add_card spec sibling m))

  block_by-Keeps : (o : Option ItemId) (blockers : List ItemId) → Keeps P (block_by o blockers)
  unfolding block_by
  block_by-Keeps none blockers = Keeps-pure tt
  block_by-Keeps (some sid) [] = Keeps-pure tt
  block_by-Keeps (some sid) (b ∷ blockers) = set_blocked_by-Keeps sid (b ∷ blockers)

  wire_blockers-Keeps :
      (key_to_id : Map String ItemId) (specs : List PlanTaskSpec)
      → Keeps P (wire_blockers key_to_id specs)
  unfolding wire_blockers
  wire_blockers-Keeps key_to_id [] = Keeps-pure tt
  wire_blockers-Keeps key_to_id (spec ∷ rest) =
      Keeps-bind _ _ (block_by-Keeps _ _) (λ _. wire_blockers-Keeps key_to_id rest)

  settled-IsBenign :
      (key_to_id : Map String ItemId) (keep : Bool)
      → IsBenign {E = Unit}
          (λ _ it. ok (record it { proposal = settle keep key_to_id it.proposal }))
  settled-IsBenign key_to_id keep = IsBenign-fields _ (λ b old. ground arith)

  pub materialize_proposal-Keeps :
      (id : ItemId) (by : String) (origin : Origin) → Keeps P (materialize_proposal id by origin)
  unfolding materialize_proposal
  materialize_proposal-Keeps id by origin =
      search (closed_rules, make_siblings-Keeps, wire_blockers-Keeps, settled-IsBenign) depth 20
