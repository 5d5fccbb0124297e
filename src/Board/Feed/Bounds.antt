-- ===== src/Board/Feed/Bounds.antt =====
-- src/store.rs: the stories of a goal after one more line.
use sandboard.Prelude.{
  ◌+◌, ◌-◌, ◌≡◌, refl, String, List, [], ◌∷◌, ◌++◌, arith, length, length-append, drop, drop-append,
  ltb, ==_self, Bool-cases, inl, inr,
}
use sandboard.Map.{nat_key, get-insert}
use sandboard.Model.Item.{ItemId}
use sandboard.Board.State.{StoryLine}
use sandboard.Board.Feed.{add_story, story, stories_for, number_and_send, record_and_send}
use sandboard.Board.Tree.{goal_of, chain, chain_from, first_or}
use sandboard.Board.Core.{Board}

add_story_lem :
    (lines : List StoryLine) (line : StoryLine)
    → add_story lines line ≡ drop (length lines + 1 - 200) lines ++ line ∷ []
unfolding add_story
add_story_lem lines line = elim (Bool-cases (ltb 200 (length (lines ++ line ∷ [])))) [
  | inl long ↦
      let n : length (lines ++ line ∷ []) - 200 ≡ length lines + 1 - 200 =
        omega (arith, length-append lines (line ∷ [])) in
      rw (long, n) (drop-append (length lines + 1 - 200) lines (line ∷ []) (omega arith))
  | inr short ↦
      let n : length lines + 1 - 200 ≡ 0 = ground (arith, short, length-append lines (line ∷ [])) in
      rw (short, n) refl
]

-- A new line stands at the end of the story of its goal, behind the latest 199 of the lines before it.
pub stories_for-story :
    (near : ItemId) (text : String) (b : Board)
    → stories_for (story near text b) near
      ≡ drop (length (stories_for b near) + 1 - 200) (stories_for b near)
        ++ record { at = b.clock; text = text } ∷ []
unfolding stories_for story number_and_send record_and_send goal_of chain chain_from first_or
stories_for-story near text b =
    rw (get-insert, ==_self (goal_of b.state near))
      (add_story_lem (stories_for b near) (record { at = b.clock; text = text }))
