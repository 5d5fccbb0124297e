-- ===== src/Board/Merge/Complete.antt =====
-- src/store.rs: when the merge of a pull request finishes a card.
use sandboard.Prelude.{
  ℕ, ◌≡◌, ◌⊎◌, refl, ap, ◌∙◌, [], ◌∷◌, ◌++◌, String, Option, none, some, List, Bool, true, false,
  ◌&&◌, ==_self, Bool-cases, inl, inr, arith,
}
use sandboard.Prelude.Text.{is_empty}
use sandboard.Prelude.Result.{ok, Result-cases}
use mathlib.Core.Path.{subst}
use sandboard.Map
use sandboard.Map.{Map, nat_key, get-insert}
use sandboard.Model.State.{State}
use sandboard.Model.Item.{ItemId, WorkItem, Transition, all_pull_requests_merged}
use sandboard.Machine.{check, allowed, requires_claimable}
use sandboard.Board.Kept.Past.{append_assoc}
use sandboard.Board.Feed.{emit, story, number_and_send, record_and_send}
use sandboard.Board.Transition.{enter, change_card, reread, store_back}
use sandboard.Board.Transition.Outcome.{
  moved_to, get-moved_to, transition_card_passed, change_card_passed,
}
use sandboard.Board.State.Indexes.{put_item}
use sandboard.Board.Moves.{transition, finish, spawn_delete}
use sandboard.Board.Merge.{
  normalize_pr_url, mark_listed_pr_merged, in_review_lane, open_with, after_mark, finish_merged,
  catch_refusal, complete_for_merged_pr_by, actor_or, numbered, tell_remaining, complete_found,
}
use sandboard.Board.Sound.{IsSound}
use sandboard.Board.Kept.Cards.{IsSound-Closed}
use sandboard.Board.Kept.Past.{IsAfter, IsAfter-Closed, Continues-refl}
use sandboard.Board.Invariant.Closed.{IsBenign, closed_rules, Closed-emit, Closed-story}
use sandboard.Board.Invariant.Benign.{IsBenign-Eased}
use sandboard.Board.Invariant.Moving.{finish-Keeps}
use sandboard.Board.Core.Keeps.{Keeps}
use sandboard.Board.Core.{modify, Board, ◌>>=◌, ◌>>◌, attempt, is_ok}

check_done :
    (it : WorkItem) (has_kids : Bool) (blockers : List ItemId)
    → in_review_lane it.state ≡ true
    → check it State.done has_kids blockers ≡ ok tt
unfolding check allowed requires_claimable in_review_lane
check_done it has_kids blockers h = ground arith

transition_done :
    (id : ItemId) (by : String) (reason : Option String) (b : Board) (it : WorkItem)
    → Map.get b.state.items id ≡ some it
    → in_review_lane it.state ≡ true
    → is_ok (transition id State.done by reason b).0 ≡ true
unfolding transition ◌>>=◌ finish attempt reread
transition_done id by reason b it found lane =
    let passed =
      transition_card_passed id State.done by reason b it found (check_done it _ _ lane) in
    rw (transition, passed) refl

finish_merged_ok :
    (id : ItemId) (by : String) (pr_number : Option ℕ) (b : Board) (it : WorkItem)
    → Map.get b.state.items id ≡ some it
    → in_review_lane it.state ≡ true
    → (catch_refusal (finish_merged id by pr_number) b).0 ≡ ok (some id)
unfolding catch_refusal finish_merged ◌>>=◌
finish_merged_ok id by pr_number b it found lane =
    let reason = some (numbered "PR merged" pr_number) in
    let moved = transition_done id by reason b it found lane in
    elim (Result-cases (transition id State.done by reason b).0) [
      | inl (e, refused) ↦ cc
      | inr (done, passed) ↦ rw passed refl
    ]

-- The board once the pull request is marked on the card and the card was sent.
abbrev marked_board : String → ItemId → WorkItem → Board → Board
marked_board needle id it b =
    let marked = mark_listed_pr_merged it needle in
    emit marked (record b { state = put_item id marked b.state })

get-marked_board :
    (needle : String) (id : ItemId) (it : WorkItem) (b : Board)
    → Map.get (marked_board needle id it b).state.items id ≡ some (mark_listed_pr_merged it needle)
unfolding emit number_and_send record_and_send
get-marked_board needle id it b = rw (get-insert, ==_self id) refl

-- What follows the move itself.
tail-IsAfter :
    (past : Map ItemId WorkItem) (id : ItemId) (by : String) (item : WorkItem) (env : Option String)
    → Keeps
        (IsAfter past)
        (do modify (emit item); modify (spawn_delete env); finish id State.done by; reread id item)
tail-IsAfter past id by item env =
    let c = IsAfter-Closed past in search (closed_rules, finish-Keeps) depth 14

moved-IsAfter :
    (id : ItemId) (by : String) (reason : Option String) (b : Board) (it : WorkItem)
    → Map.get b.state.items id ≡ some it
    → in_review_lane it.state ≡ true
    → IsSound b.state
    → IsAfter
        (moved_to b.clock id State.done by reason it b.state).items
        (transition id State.done by reason b).1
unfolding transition ◌>>=◌
moved-IsAfter id by reason b it found lane h =
    let passed =
      transition_card_passed id State.done by reason b it found (check_done it _ _ lane) in
    let sound = (IsSound-Closed.moved id State.done by reason).at b h in
    rw (transition, passed)
      ((tail-IsAfter _ id by _ _).at _ (record {
        sound = subst (λ b. IsSound b.state) (ap (λ r. r.1) passed) sound;
        remembers = λ i x e. (x, e, Continues-refl x);
      }))

finish_merged-IsAfter :
    (id : ItemId) (by : String) (pr_number : Option ℕ) (b : Board) (it : WorkItem)
    → Map.get b.state.items id ≡ some it
    → in_review_lane it.state ≡ true
    → IsSound b.state
    → IsAfter
        (moved_to b.clock id State.done by (some (numbered "PR merged" pr_number)) it b.state).items
        (catch_refusal (finish_merged id by pr_number) b).1
unfolding catch_refusal finish_merged ◌>>=◌
finish_merged-IsAfter id by pr_number b it found lane h =
    let reason = some (numbered "PR merged" pr_number) in
    let past = (moved_to b.clock id State.done by reason it b.state).items in
    let after = moved-IsAfter id by reason b it found lane h in
    let moved = transition_done id by reason b it found lane in
    elim (Result-cases (transition id State.done by reason b).0) [
      | inl (e, refused) ↦ absurd cc
      | inr (done, passed) ↦ rw passed (Closed-story (IsAfter-Closed past) id _ _ after)
    ]

marked_board-IsSound :
    (needle : String) (id : ItemId) (it : WorkItem) (b : Board)
    → Map.get b.state.items id ≡ some it
    → IsSound b.state
    → IsSound (marked_board needle id it b).state
unfolding mark_listed_pr_merged
marked_board-IsSound needle id it b found h =
    Closed-emit IsSound-Closed (mark_listed_pr_merged it needle) _ (
      subst (λ b. IsSound b.state)
        (ap (λ r. r.1)
          (change_card_passed tt id (λ _ it. ok (mark_listed_pr_merged it needle)) b it
            (mark_listed_pr_merged it needle) found refl))
        (IsSound-Closed.changed tt id (λ _ it. ok (mark_listed_pr_merged it needle)) b
          (λ old new e card done. marked b old new card done) h))
  where
    marked : IsBenign {E = Unit} (λ _ it. ok (mark_listed_pr_merged it needle))
    marked = IsBenign-Eased _ (λ b old it e. ground arith)

-- The entry of the move to Done.
abbrev pub done_entry : ℕ → String → Option ℕ → WorkItem → Transition
done_entry now by pr_number it = record {
  at = now;
  source = it.state;
  to = State.done;
  by = actor_or by "github-webhook";
  reason = some (numbered "PR merged" pr_number);
}

after_mark_finished :
    (id : ItemId) (by : String) (pr_number : Option ℕ) (b : Board) (it : WorkItem)
    → IsSound b.state
    → Map.get b.state.items id ≡ some it
    → (all_pull_requests_merged it && in_review_lane it.state) ≡ true
    → ((after_mark id by pr_number it b).0 ≡ ok (some id))
      × (now : WorkItem) × (later : List Transition) × (Map.get
            (after_mark id by pr_number it b).1.state.items
            id
          ≡ some now)
      × (now.history ≡ it.history ++ done_entry b.clock by pr_number it ∷ later)
unfolding after_mark enter
after_mark_finished id by pr_number b it h found both =
    let merged : all_pull_requests_merged it ≡ true = ground (arith, both) in
    let lane : in_review_lane it.state ≡ true = ground (arith, both) in
    let actor = actor_or by "github-webhook" in
    let result = finish_merged_ok id actor pr_number b it found lane in
    let after = finish_merged-IsAfter id actor pr_number b it found lane h in
    let reason = some (numbered "PR merged" pr_number) in
    let (now, there, on) =
      after.remembers id (enter b.clock State.done actor reason it)
        (get-moved_to b.clock id State.done actor reason it b.state) in
    let entry = done_entry b.clock by pr_number it in
    rw (merged, lane)
      (result, now, on.later, there, on.history ∙ append_assoc it.history (entry ∷ []) on.later)

after_mark_left :
    (id : ItemId) (by : String) (pr_number : Option ℕ) (b : Board) (it : WorkItem)
    → Map.get b.state.items id ≡ some it
    → (all_pull_requests_merged it && in_review_lane it.state) ≡ false
    → ((after_mark id by pr_number it b).0 ≡ ok none)
      × (Map.get (after_mark id by pr_number it b).1.state.items id ≡ some it)
unfolding after_mark ◌>>=◌ tell_remaining story number_and_send record_and_send
after_mark_left id by pr_number b it found h = elim (Bool-cases (all_pull_requests_merged it)) [
  | inl merged ↦
      let out : in_review_lane it.state ≡ false = ground (arith, merged, h) in
      rw (merged, out) (refl, found)
  | inr waits ↦ rw waits (refl, found)
]

complete_lem :
    (pr_url by : String) (pr_number : Option ℕ) (b : Board) (id : ItemId) (it : WorkItem)
    → is_empty (normalize_pr_url pr_url) ≡ false
    → open_with (normalize_pr_url pr_url) b ≡ some id
    → Map.get b.state.items id ≡ some it
    → complete_for_merged_pr_by pr_url pr_number by b
      ≡ after_mark id by pr_number
          (mark_listed_pr_merged it (normalize_pr_url pr_url))
          (marked_board (normalize_pr_url pr_url) id it b)
unfolding complete_for_merged_pr_by complete_found ◌>>=◌ change_card store_back Map.get after_mark
complete_lem pr_url by pr_number b id it filled first found = rw (filled, first, found) refl

-- Where the URL is that of a pull request on an open card of a sound board, the first such card is finished
-- just where all its pull requests are then merged and it stands in Review or NeedsHuman: its id is returned,
-- and its history goes on with the move to Done. Otherwise no id is returned, and the card is as it was but for
-- the mark on its pull requests.
pub complete_for_merged_pr_lem :
    (pr_url by : String) (pr_number : Option ℕ) (b : Board) (id : ItemId) (it : WorkItem)
    → IsSound b.state
    → is_empty (normalize_pr_url pr_url) ≡ false
    → open_with (normalize_pr_url pr_url) b ≡ some id
    → Map.get b.state.items id ≡ some it
    → ((all_pull_requests_merged (mark_listed_pr_merged it (normalize_pr_url pr_url))
            && in_review_lane it.state
          ≡ true)
        × ((complete_for_merged_pr_by pr_url pr_number by b).0 ≡ ok (some id))
        × (now : WorkItem) × (later : List Transition) × (Map.get
              (complete_for_merged_pr_by pr_url pr_number by b).1.state.items
              id
            ≡ some now)
        × (now.history ≡ it.history ++ done_entry b.clock by pr_number it ∷ later))
      ⊎ ((all_pull_requests_merged (mark_listed_pr_merged it (normalize_pr_url pr_url))
              && in_review_lane it.state
            ≡ false)
          × ((complete_for_merged_pr_by pr_url pr_number by b).0 ≡ ok none)
          × (Map.get (complete_for_merged_pr_by pr_url pr_number by b).1.state.items id
              ≡ some (mark_listed_pr_merged it (normalize_pr_url pr_url))))
unfolding mark_listed_pr_merged emit number_and_send record_and_send
complete_for_merged_pr_lem pr_url by pr_number b id it h filled first found =
    let needle = normalize_pr_url pr_url in
    let marked = mark_listed_pr_merged it needle in
    let after = marked_board needle id it b in
    let there = get-marked_board needle id it b in
    rw (complete_lem pr_url by pr_number b id it filled first found)
      (elim (Bool-cases (all_pull_requests_merged marked && in_review_lane it.state)) [
        | inl both ↦
            let sound = marked_board-IsSound needle id it b found h in
            let (result, now, later, stored, hist) =
              after_mark_finished id by pr_number after marked sound there both in
            inl (both, result, now, later, stored, hist)
        | inr not_both ↦
            let (result, stored) = after_mark_left id by pr_number after marked there not_both in
            inr (not_both, result, stored)
      ])
