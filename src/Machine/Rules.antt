-- ===== src/Machine/Rules.antt =====
-- src/machine.rs: what the guards of a transition guarantee.
use sandboard.Prelude.{◌≡◌, ◌≢◌, ◌↔◌, List, Bool, true, false, arith, is_some, is_empty}
use sandboard.Prelude.Result.{ok}
use sandboard.Model.State.{State, state_eq, is_terminal}
use sandboard.Model.Item.{ItemId, WorkItem}
use sandboard.Machine.{allowed, check, requires_claimable}

-- The guards let a card be claimed exactly where it is in Backlog, has no children and has no
-- unresolved blockers.
pub check-claimed :
    (item : WorkItem) (has_children : Bool) (blockers : List ItemId)
    → (check item State.claimed has_children blockers ≡ ok tt)
      ↔ (item.state ≡ State.backlog) × (has_children ≡ false) × (is_empty blockers ≡ true)
unfolding check allowed requires_claimable
check-claimed item has_children blockers = ground arith

-- The guards let no leaf without a definition of done enter Backlog, and no card with children enter
-- Claimed, Running or Splitting, from whatever state.
pub check_refuses :
    (item : WorkItem) (to : State) (has_children : Bool) (blockers : List ItemId)
    → check item to has_children blockers ≡ ok tt
    → (to ≡ State.backlog → has_children ≡ false → is_some item.definition_of_done ≡ true)
      × (requires_claimable to ≡ true → has_children ≡ false)
unfolding check
check_refuses item to has_children blockers h = ground arith

-- A finished card is left by few edges: out of Done only to Review and to Retired, and out of Retired
-- never to Claimed, Running, Splitting, NeedsHuman or Retired.
pub allowed-is_terminal :
    (source to : State)
    → is_terminal source ≡ true
    → allowed source to ≡ true
    → (requires_claimable to ≡ false)
      × (to ≢ State.needs_human)
      × (source ≡ State.done → state_eq to State.review ≡ false → to ≡ State.retired)
      × (source ≡ State.retired → to ≢ State.retired)
unfolding allowed is_terminal requires_claimable
allowed-is_terminal source to closed legal = ground arith
