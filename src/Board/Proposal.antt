-- ===== src/Board/Proposal.antt =====
-- src/store.rs: a proposal on a card, and how it becomes sibling Tasks.
pub mod Count
use sandboard.Prelude.{
  ℕ, String, Option, none, some, List, [], ◌∷◌, ◌++◌, Bool, false, ◌&&◌, ◌||◌, not, ◌==◌, is_some,
  is_empty, all, keep, length, if◌then◌else◌,
}
use sandboard.Prelude.Text
use sandboard.Prelude.Text.{format, show_ℕ, trim, split_whitespace, join, to_lowercase, str_eq}
use sandboard.Prelude.Result.{Result, ok, err}
use sandboard.Map
use sandboard.Map.{Map, nat_key, string_key}
use sandboard.Model.State.{State, state_eq, is_terminal}
use sandboard.Model.Plan.{PlanTaskSpec, TaskProposal}
use sandboard.Model.Item.{ItemId, WorkItem, Origin, is_initial_plan_task}
use sandboard.Board.State.{BoardState}
use sandboard.Board.State.Indexes.{is_id}
use sandboard.Board.Feed.{emit, story}
use sandboard.Board.Transition.{change_card, require_card, get_card}
use sandboard.Board.Create.{create_under, transition_plain}
use sandboard.Board.Fields.{set_blocked_by}
use sandboard.Board.Core.{Action, pure, lift, gets, modify, ◌>>=◌, ◌>>◌, attempt}

unfoldable pub normalize_title : String → String
normalize_title title = to_lowercase (join " " (split_whitespace title))

unfoldable pub check_tasks : List PlanTaskSpec → Result String Unit
check_tasks [] = ok tt
check_tasks (t ∷ rest) =
    if Text.is_empty (trim t.key)
    then err (format ("proposal task '" ∷ t.title ∷ "' needs a key" ∷ []))
    else if Text.is_empty (trim t.definition_of_done)
    then err (format ("proposal task '" ∷ t.title ∷ "' needs a definition of done" ∷ []))
    else check_tasks rest

unfoldable pub has_tasks : Option TaskProposal → Bool
has_tasks none = false
has_tasks (some p) = not (is_empty p.tasks)

-- Every task needs a key and a definition of done; an accepted Initial plan is frozen.
unfoldable pub check_proposal : TaskProposal → Result String Unit
unfolding check_tasks
check_proposal proposal =
    if is_empty proposal.tasks
    then err "proposal needs at least one task"
    else check_tasks proposal.tasks

unfoldable pub set_proposal : ItemId → TaskProposal → Action String WorkItem
set_proposal id proposal = do
  lift (check_proposal proposal)
  item ← change_card (format ("no work item #" ∷ show_ℕ id ∷ [])) id λ _ it.
      if is_initial_plan_task it && is_terminal it.state
      then err "Initial plan already accepted — proposal is frozen"
      else ok (record it { proposal = some proposal })
  modify (emit item)
  pure item

-- The cards whose titles a proposal may reuse: `existing_by_title` before the keys are taken.
unfoldable pub siblings_of : BoardState → ItemId → ItemId → List WorkItem
siblings_of s project_id id =
    keep
      (λ it.
        is_id it.parent project_id && not (it.id == id) && not (state_eq it.state State.retired))
      (Map.values s.items)

-- In the source the titles are the keys of a hash map, in which a later card replaces an earlier one.
unfoldable pub titled : String → List WorkItem → Option WorkItem
unfolding normalize_title
titled title_key [] = none
titled title_key (it ∷ rest) = elim (titled title_key rest) [
  | some later ↦ some later
  | none ↦
      if str_eq (normalize_title it.title) title_key && not (Text.is_empty title_key)
      then some it
      else none
]

abbrev or_capability : Option String → Option String → Option String
or_capability none c = c
or_capability (some c) _ = some c

-- The key of every task with the card that stands for it, and those cards in order.
pub record Made : Type 0 where
  pub key_to_id : Map String ItemId
  pub made : List WorkItem

unfoldable pub no_cards : Made
no_cards = record { key_to_id = []; made = [] }

unfoldable pub add_card : PlanTaskSpec → WorkItem → Made → Made
add_card spec card m = record {
  key_to_id = Map.insert m.key_to_id spec.key card.id;
  made = m.made ++ card ∷ [];
}

unfoldable pub create_sibling :
    ItemId → WorkItem → String → Origin → PlanTaskSpec → Action String WorkItem
create_sibling project_id card by origin spec = do
  sibling ←
      create_under (some project_id) spec.title spec.intent (some spec.definition_of_done) origin
        false (or_capability spec.capability card.capability)
  transition_plain sibling.id State.shaping by (some "from proposal")
  transition_plain sibling.id State.backlog by (some "from proposal")

unfoldable pub reuse_or_create :
    ItemId → WorkItem → String → Origin → PlanTaskSpec → Option WorkItem → Action String WorkItem
unfolding create_sibling
reuse_or_create project_id card by origin spec (some existing) = pure existing
reuse_or_create project_id card by origin spec none = create_sibling project_id card by origin spec

unfoldable pub make_siblings :
    ItemId
    → WorkItem
    → String
    → Origin
    → List WorkItem
    → List PlanTaskSpec
    → Made
    → Action String Made
unfolding reuse_or_create
make_siblings project_id card by origin existing [] m = pure m
make_siblings project_id card by origin existing (spec ∷ rest) m = do
  sibling ←
      reuse_or_create project_id card by origin spec (titled (normalize_title spec.title) existing)
  make_siblings project_id card by origin existing rest (add_card spec sibling m)

ids_of : Map String ItemId → List String → List ItemId
ids_of key_to_id [] = []
ids_of key_to_id (k ∷ rest) = elim (Map.get key_to_id k) [
  | none ↦ ids_of key_to_id rest
  | some id ↦ id ∷ ids_of key_to_id rest
]

unfoldable pub block_by : Option ItemId → List ItemId → Action String Unit
block_by none blockers = pure tt
block_by (some sid) [] = pure tt
block_by (some sid) (b ∷ blockers) = set_blocked_by sid (b ∷ blockers)

unfoldable pub wire_blockers : Map String ItemId → List PlanTaskSpec → Action String Unit
unfolding ids_of block_by
wire_blockers key_to_id [] = pure tt
wire_blockers key_to_id (spec ∷ rest) = do
  block_by (Map.get key_to_id spec.key) (ids_of key_to_id spec.blocked_by_keys)
  wire_blockers key_to_id rest

stamp_task : Map String ItemId → PlanTaskSpec → PlanTaskSpec
stamp_task key_to_id t = elim (Map.get key_to_id t.key) [
  | none ↦ t
  | some sid ↦ record t { item_id = some sid }
]

stamp_tasks : Map String ItemId → List PlanTaskSpec → List PlanTaskSpec
unfolding stamp_task
stamp_tasks key_to_id [] = []
stamp_tasks key_to_id (t ∷ rest) = stamp_task key_to_id t ∷ stamp_tasks key_to_id rest

-- An Initial plan keeps its proposal, with the cards stamped on; a split loses it.
unfoldable pub settle : Bool → Map String ItemId → Option TaskProposal → Option TaskProposal
unfolding stamp_tasks
settle keep_proposal key_to_id none = none
settle keep_proposal key_to_id (some p) =
    if keep_proposal then some (record p { tasks = stamp_tasks key_to_id p.tasks }) else none

unfoldable pub the_tasks : Option TaskProposal → List PlanTaskSpec
the_tasks none = []
the_tasks (some p) = p.tasks

unfoldable pub need_tasks : ItemId → Option TaskProposal → Result String (List PlanTaskSpec)
unfolding has_tasks the_tasks
need_tasks id proposal =
    if has_tasks proposal
    then ok (the_tasks proposal)
    else err (format ("card #" ∷ show_ℕ id ∷ " has no proposal to materialize" ∷ []))

unfoldable pub need_parent : Option ItemId → Result String ItemId
need_parent none = err "cannot materialize proposal on a Project root"
need_parent (some p) = ok p

unfoldable pub materialize_proposal : ItemId → String → Origin → Action String (List WorkItem)
unfolding need_tasks need_parent siblings_of make_siblings titled add_card no_cards wire_blockers
    settle
materialize_proposal id by origin = do
  card ← require_card "no such item" id
  tasks ← lift (need_tasks id card.proposal)
  project_id ← lift (need_parent card.parent)
  existing ← gets (λ b. siblings_of b.state project_id id)
  m ← make_siblings project_id card by origin existing tasks no_cards
  wire_blockers m.key_to_id tasks
  attempt (do
    snap ← change_card tt id (λ _ it.
        ok (record it { proposal = settle (is_initial_plan_task card) m.key_to_id it.proposal }))
    modify (emit snap))
  pure m.made

-- Every row of the proposal is linked to a card.
unfoldable pub all_linked : Option TaskProposal → Bool
all_linked none = false
all_linked (some p) = all (λ t. is_some t.item_id) p.tasks

unfoldable pub drop_plan : Option ItemId → Action String Unit
drop_plan none = pure tt
drop_plan (some project_id) = attempt (do
  snap ←
      change_card tt project_id
        (λ _ p. if is_some p.plan then ok (record p { plan = none }) else err tt)
  modify (emit snap))

unfoldable pub origin_of : ItemId → WorkItem → Origin
origin_of id card = if is_initial_plan_task card then Origin.planner else Origin.split id

unfoldable pub materialize_card : ItemId → String → WorkItem → Action String ℕ
unfolding has_tasks all_linked drop_plan
materialize_card id by card =
    if not (has_tasks card.proposal) || all_linked card.proposal then pure 0 else (do
      made ← materialize_proposal id by (origin_of id card)
      if is_initial_plan_task card then drop_plan card.parent else pure tt
      modify (
          story id (
            format
              (card.title ∷ " — " ∷ show_ℕ (length made) ∷ " Tasks created from proposal." ∷ [])))
      pure (length made))

unfoldable pub materialize_found : ItemId → String → Option WorkItem → Action String ℕ
unfolding materialize_card
materialize_found id by none = pure 0
materialize_found id by (some card) = materialize_card id by card

unfoldable pub materialize_proposal_on_done : ItemId → String → Action String ℕ
unfolding materialize_found
materialize_proposal_on_done id by = do
  found ← gets (λ b. get_card b id)
  materialize_found id by found
