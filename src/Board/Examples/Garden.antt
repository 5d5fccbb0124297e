-- ===== src/Board/Examples/Garden.antt =====
-- A small sound board, a Project with one Task, and the theorems on reads applied to it.
use sandboard.Prelude.{◌+◌, ◌≡◌, ◌↔◌, ◌⊎◌, refl, none, some, [], ◌∷◌, false, arith}
use sandboard.Map
use sandboard.Map.{nat_key, string_key}
use sandboard.Schema.{default_schema}
use sandboard.Model.State.{State, state_key, is_terminal}
use sandboard.Model.Item.{ItemId, WorkItem, new_item}
use sandboard.Board.State.{BoardState, empty_state, insert_item, index_link_item}
use sandboard.Board.Create.{check_parent, check_top}
use sandboard.Model.Item.{level_is}
use sandboard.Board.Core.{Board, new_board}
use sandboard.Board.Sound.{IsSound, IsCard}
use sandboard.Board.Kept.Cards.{new_board-IsSound, insert_fresh-IsSound}
use sandboard.Board.Tree.{chain, goal_of, depth, has_children}
use sandboard.Board.Tree.Laws.{chain-IsSound, has_children-IsSound}

abbrev pub garden : WorkItem
garden = new_item 7 1 "Garden" "grow it"

abbrev pub plot : WorkItem
plot = record (new_item 7 2 "Plot" "dig it") { parent = some 1 }

abbrev pub blank_board : Board
blank_board = new_board default_schema 7

abbrev pub one_card : BoardState
one_card = insert_item garden (record blank_board.state { next_id = blank_board.state.next_id + 1 })

abbrev pub two_cards : BoardState
two_cards = insert_item plot (record one_card { next_id = one_card.next_id + 1 })

abbrev pub garden_board : Board
garden_board = record blank_board { state = two_cards }

garden-IsCard : IsCard garden
unfolding new_item is_terminal
garden-IsCard = record { unleased = λ _. (refl, refl); at_rest = λ e. ground arith; trail = refl }

plot-IsCard : IsCard plot
unfolding new_item is_terminal
plot-IsCard = record { unleased = λ _. (refl, refl); at_rest = λ e. ground arith; trail = refl }

pub one_card-IsSound : IsSound one_card
unfolding new_item new_board empty_state check_parent
one_card-IsSound =
    insert_fresh-IsSound blank_board.state garden refl garden-IsCard refl
      (new_board-IsSound default_schema 7)

pub two_cards-IsSound : IsSound two_cards
unfolding new_item new_board empty_state check_parent check_top level_is insert_item index_link_item
    Map.get Map.insert
two_cards-IsSound = insert_fresh-IsSound one_card plot refl plot-IsCard refl one_card-IsSound

plot_there : Map.get two_cards.items 2 ≡ some plot
unfolding new_item new_board empty_state insert_item index_link_item Map.get Map.insert
plot_there = refl

chain-IsSound_example :
    ((plot.parent ≡ none)
      × (chain two_cards 2 ≡ 2 ∷ [])
      × (goal_of two_cards 2 ≡ 2)
      × (depth two_cards 2 ≡ 0))
    ⊎ ((p : ItemId) × (plot.parent ≡ some p)
        × (chain two_cards 2 ≡ p ∷ 2 ∷ [])
        × (goal_of two_cards 2 ≡ p)
        × (depth two_cards 2 ≡ 1))
chain-IsSound_example = chain-IsSound two_cards 2 plot two_cards-IsSound plot_there

has_children-IsSound_example : (has_children two_cards 1 ≡ false) ↔ (
    (c : ItemId) (it : WorkItem)
    → Map.get two_cards.items c ≡ some it
    → it.parent ≡ some 1
    → it.state ≡ State.retired)
has_children-IsSound_example = has_children-IsSound two_cards 1 two_cards-IsSound
