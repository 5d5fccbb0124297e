-- ===== src/Board/State.antt =====
-- src/store.rs: `BoardState`, its two indexes and the operations that keep them. Of the fields, those
-- that hold settings (profiles, policies, providers, credentials, polling) are left out.
pub mod Indexes
use sandboard.Prelude.{
  ℕ, ◌+◌, suc, String, Option, none, some, List, [], ◌∷◌, Bool, false, ◌&&◌, not, if◌then◌else◌,
  keep, length, is_none,
}
use sandboard.Map
use sandboard.Map.{Map, nat_key}
use sandboard.Map.Index.{members, link, unlink}
use sandboard.Map.Set.{Set}
use sandboard.Model.State.{State, state_eq, is_terminal, state_key}
use sandboard.Model.Item.{ItemId, WorkItem}
use sandboard.Model.Cockpit.{CockpitSession}

pub record StoryLine : Type 0 where
  pub at : ℕ
  pub text : String

pub record BoardState : Type 0 where
  pub next_id : ItemId
  pub items : Map ItemId WorkItem
  pub stories : Map ItemId (List StoryLine)
  pub cockpit_session : Option CockpitSession
  pub children_by_parent : Map ItemId (Set ItemId)
  pub ids_by_state : Map State (Set ItemId)

unfoldable pub empty_state : BoardState
empty_state = record {
  next_id = 1;
  items = [];
  stories = [];
  cockpit_session = none;
  children_by_parent = [];
  ids_by_state = [];
}

abbrev link_parent : Map ItemId (Set ItemId) → Option ItemId → ItemId → Map ItemId (Set ItemId)
link_parent m none id = m
link_parent m (some p) id = link m p id

abbrev unlink_parent : Map ItemId (Set ItemId) → Option ItemId → ItemId → Map ItemId (Set ItemId)
unlink_parent m none id = m
unlink_parent m (some p) id = unlink m p id

unfoldable pub index_link_item : WorkItem → BoardState → BoardState
index_link_item item s = record s {
  children_by_parent = link_parent s.children_by_parent item.parent item.id;
  ids_by_state = link s.ids_by_state item.state item.id;
}

unfoldable pub index_unlink_item : WorkItem → BoardState → BoardState
index_unlink_item item s = record s {
  children_by_parent = unlink_parent s.children_by_parent item.parent item.id;
  ids_by_state = unlink s.ids_by_state item.state item.id;
}

unfoldable pub index_set_state : ItemId → State → State → BoardState → BoardState
index_set_state id source to s =
    if state_eq source to
    then s
    else record s { ids_by_state = link (unlink s.ids_by_state source id) to id }

-- The loop of `rebuild_hot_indexes` over the items.
relink : List WorkItem → BoardState → BoardState
unfolding index_link_item
relink [] s = s
relink (item ∷ rest) s = relink rest (index_link_item item s)

unfoldable pub rebuild_hot_indexes : BoardState → BoardState
unfolding relink
rebuild_hot_indexes s =
    relink (Map.values s.items) (record s { children_by_parent = []; ids_by_state = [] })

unfoldable pub insert_item : WorkItem → BoardState → BoardState
unfolding index_link_item
insert_item item s =
    let linked = index_link_item item s in
    record linked { items = Map.insert linked.items item.id item }

unfoldable pub remove_item : ItemId → BoardState → Option WorkItem × BoardState
unfolding index_unlink_item
remove_item id s = elim (Map.get s.items id) [
  | none ↦ (none, s)
  | some item ↦ (some item, index_unlink_item item (record s { items = Map.remove s.items id }))
]

-- The test of a child in `non_retired_child_count`.
unfoldable pub is_live_child : Option WorkItem → Bool
is_live_child none = false
is_live_child (some child) = not (state_eq child.state State.retired)

unfoldable pub non_retired_child_count : BoardState → ItemId → ℕ
unfolding is_live_child members
non_retired_child_count s id =
    length (keep (λ cid. is_live_child (Map.get s.items cid)) (members s.children_by_parent id))

-- The test of a blocker: it is on the board and has not reached a terminal state.
unfoldable pub is_open : Option WorkItem → Bool
is_open none = false
is_open (some it) = not (is_terminal it.state)

unfoldable pub open_blocker_count : BoardState → WorkItem → ℕ
unfolding is_open
open_blocker_count s item = length (keep (λ b. is_open (Map.get s.items b)) item.blocked_by)
