-- ===== src/Board/Rebase/Outcome.antt =====
-- src/store.rs: what a conflict on a pull request does to its card.
use sandboard.Prelude.{
  ℕ, ◌≡◌, refl, ap, ◌∙◌, String, Option, none, some, List, [], ◌∷◌, ◌++◌, Bool, true, false,
  is_empty, map, arith,
}
use sandboard.Prelude.Text.{format, show_ℕ, trim}
use sandboard.Prelude.Result.{ok}
use sandboard.Map
use sandboard.Map.{nat_key}
use sandboard.Model.State.{State}
use sandboard.Model.Item.{ItemId, WorkItem}
use sandboard.Machine.{check, allowed, requires_claimable}
use sandboard.Board.Tree.{populate_blockers}
use sandboard.Board.State.Indexes.{put_item}
use sandboard.Board.Transition.{enter, frees_card}
use sandboard.Board.Transition.Outcome.{
  moved_to, get-moved_to, get-put_item, transition_card_passed, change_card_passed,
}
use sandboard.Board.Rebase.{
  overlap, note_conflict, bounce_reason, bounce, settle, need_review, conflict_bounce_note,
  record_rebase_outcome, complete_rebase_conflict,
}
use sandboard.Board.Core.{Board, ◌>>=◌, attempt, map_error}

check_requeue :
    (it : WorkItem) (d : String) (has_kids : Bool) (blockers : List ItemId)
    → it.state ≡ State.review
    → it.definition_of_done ≡ some d
    → check it State.backlog has_kids blockers ≡ ok tt
unfolding check allowed requires_claimable
check_requeue it d has_kids blockers reviewed dod = ground arith

-- The card with the conflict on it.
abbrev noted : ℕ → String → List String → WorkItem → WorkItem
noted now reason files it = record it {
  last_bounce_reason = some reason;
  last_conflict_files = files;
  notes =
      it.notes ++ record { at = now; author = "rebase"; text = conflict_bounce_note files } ∷ [];
}

note_conflict_passed :
    (id : ItemId) (reason : String) (files : List String) (b : Board) (it : WorkItem)
    → Map.get b.state.items id ≡ some it
    → note_conflict id reason files b
      ≡ (ok tt, record b { state = put_item id (noted b.clock reason files it) b.state })
unfolding note_conflict attempt
note_conflict_passed id reason files b it found =
    rw (note_conflict, change_card_passed tt id _ b it (noted b.clock reason files it) found refl)
      refl

module _ (id : ItemId) (b : Board) (it : WorkItem) (d : String) (files : List String)
    (reason : Option String) (found : Map.get b.state.items id ≡ some it)
    (reviewed : it.state ≡ State.review) (dod : it.definition_of_done ≡ some d) where
  abbrev marked : WorkItem
  marked = noted b.clock (bounce_reason reason files) files it

  abbrev marked_board : Board
  marked_board = record b { state = put_item id marked b.state }

  abbrev entered : WorkItem
  entered = enter b.clock State.backlog "rebase" (some (bounce_reason reason files)) marked

  abbrev entered_board : Board
  entered_board = record b {
    state =
        moved_to b.clock id State.backlog "rebase" (some (bounce_reason reason files)) marked
          marked_board.state;
  }

  abbrev rested : WorkItem
  rested = record entered { rebase_requested = false; awaiting_dispatch = false }

  bounce_passed :
      (title : String)
      → (bounce id title files reason b).0
        ≡ ok (populate_blockers (put_item id rested entered_board.state) rested)
  unfolding bounce ◌>>=◌ map_error
  bounce_passed title =
      let moved =
        transition_card_passed id State.backlog "rebase" (some (bounce_reason reason files))
          marked_board marked (get-put_item id marked b.state)
          (check_requeue marked d _ _ reviewed dod) in
      let settled =
        change_card_passed (format ("no such item #" ∷ show_ℕ id ∷ [])) id
          (λ _ it. ok (record it { rebase_requested = false; awaiting_dispatch = false }))
          entered_board entered rested
          (get-moved_to b.clock id State.backlog "rebase" (some (bounce_reason reason files)) marked
            marked_board.state)
          refl in
      rw
        (
          bounce,
          note_conflict_passed id (bounce_reason reason files) files b it found,
          moved,
          settled,
        )
        refl

settled_by :
    (id : ItemId) (b : Board) (it : WorkItem) (raw : List String) (reason : Option String)
    → Map.get b.state.items id ≡ some it
    → it.state ≡ State.review
    → is_empty (overlap (map trim raw) it.last_conflict_files) ≡ true
    → complete_rebase_conflict id raw reason b ≡ bounce id it.title (map trim raw) reason b
unfolding complete_rebase_conflict record_rebase_outcome need_review settle ◌>>=◌
settled_by id b it raw reason found reviewed apart = rw (found, reviewed, apart) refl

-- A conflict on a card in Review that has a definition of done, where none of the files was in
-- conflict the last time: the card goes back to Backlog without a lease, its retry flags cleared, and
-- keeps the files for the next comparison and a note that binds the next run.
pub rebase_bounces :
    (id : ItemId) (b : Board) (it : WorkItem) (d : String) (raw : List String)
    (reason : Option String)
    → Map.get b.state.items id ≡ some it
    → it.state ≡ State.review
    → it.definition_of_done ≡ some d
    → is_empty (overlap (map trim raw) it.last_conflict_files) ≡ true
    → (out : WorkItem) × ((complete_rebase_conflict id raw reason b).0 ≡ ok out)
      × (out.state ≡ State.backlog)
      × (out.lease ≡ none)
      × (out.rebase_requested ≡ false)
      × (out.awaiting_dispatch ≡ false)
      × (out.last_conflict_files ≡ map trim raw)
      × (out.notes
          ≡ it.notes
            ++ record {
              at = b.clock;
              author = "rebase";
              text = conflict_bounce_note (map trim raw);
            }
              ∷ [])
unfolding enter frees_card populate_blockers
rebase_bounces id b it d raw reason found reviewed dod apart = (
  populate_blockers
      (put_item id (rested id b it d (map trim raw) reason found reviewed dod)
        (entered_board id b it d (map trim raw) reason found reviewed dod).state)
      (rested id b it d (map trim raw) reason found reviewed dod),
  ap (λ r. r.0) (settled_by id b it raw reason found reviewed apart)
      ∙ bounce_passed id b it d (map trim raw) reason found reviewed dod it.title,
  refl,
  refl,
  refl,
  refl,
  refl,
  refl,
)
