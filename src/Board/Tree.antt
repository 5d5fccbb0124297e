-- ===== src/Board/Tree.antt =====
-- src/store.rs: the reads over the tree of cards.
pub mod Laws
use sandboard.Prelude.{ℕ, zero, suc, String, Option, none, some, List, [], ◌∷◌, Bool, ltb, keep}
use sandboard.Map
use sandboard.Map.{nat_key}
use sandboard.Map.Index.{members}
use sandboard.Model.Item.{ItemId, WorkItem, BlockerSummary}
use sandboard.Schema.{Schema, level_for_depth}
use sandboard.Board.State.{BoardState, non_retired_child_count, is_open}

unfoldable pub children_of_indexed : BoardState → ItemId → List ItemId
unfolding members
children_of_indexed s id = members s.children_by_parent id

unfoldable pub has_children : BoardState → ItemId → Bool
unfolding non_retired_child_count
has_children s id = ltb 0 (non_retired_child_count s id)

unfoldable pub parent_of : Option WorkItem → Option ItemId
parent_of none = none
parent_of (some it) = it.parent

-- The loops of `depth` and `chain` stop after 33 rounds, the guard against a cycle of parents: the
-- first argument counts the rounds left.
unfoldable pub depth_from : ℕ → BoardState → Option ItemId → ℕ
depth_from zero s cur = 0
depth_from (suc rounds) s none = 0
depth_from (suc rounds) s (some p) = suc (depth_from rounds s (parent_of (Map.get s.items p)))

unfoldable pub depth : BoardState → ItemId → ℕ
unfolding depth_from parent_of
depth s id = depth_from 33 s (parent_of (Map.get s.items id))

unfoldable pub chain_from : ℕ → BoardState → Option ItemId → List ItemId → List ItemId
chain_from zero s cur out = out
chain_from (suc rounds) s none out = out
chain_from (suc rounds) s (some c) out =
    chain_from rounds s (parent_of (Map.get s.items c)) (c ∷ out)

-- The path from the root down to the card: `out` is built in reverse.
unfoldable pub chain : BoardState → ItemId → List ItemId
unfolding chain_from parent_of
chain s id = chain_from 33 s (some id) []

unfoldable pub first_or : List ItemId → ItemId → ItemId
first_or [] id = id
first_or (c ∷ _) id = c

unfoldable pub goal_of : BoardState → ItemId → ItemId
unfolding chain first_or
goal_of s id = first_or (chain s id) id

abbrev level_of : Option WorkItem → Option String
level_of none = none
level_of (some it) = it.level

unfoldable pub level_name : Schema → BoardState → ItemId → String
unfolding depth level_for_depth
level_name schema s id = elim (level_of (Map.get s.items id)) [
  | some l ↦ l
  | none ↦ elim (level_for_depth schema (depth s id)) [ none ↦ "Item" | some l ↦ l.name ]
]

unfoldable pub unresolved_blockers : BoardState → WorkItem → List ItemId
unfolding is_open
unresolved_blockers s item = keep (λ b. is_open (Map.get s.items b)) item.blocked_by

abbrev add_summary : Option WorkItem → List BlockerSummary → List BlockerSummary
add_summary none rest = rest
add_summary (some b) rest = record { id = b.id; title = b.title; state = b.state } ∷ rest

summaries : BoardState → List ItemId → List BlockerSummary
summaries s [] = []
summaries s (bid ∷ rest) = add_summary (Map.get s.items bid) (summaries s rest)

unfoldable pub populate_blockers : BoardState → WorkItem → WorkItem
unfolding summaries
populate_blockers s item = record item { blockers = summaries s item.blocked_by }
