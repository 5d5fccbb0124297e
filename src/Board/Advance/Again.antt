-- ===== src/Board/Advance/Again.antt =====
-- src/store.rs: `notify_main_advanced` with a commit that the live cards have been told of.
use sandboard.Prelude.{
  ◌≡◌, ◌⊎◌, refl, String, some, List, [], ◌∷◌, ◌++◌, All, true, false, Option-cases, Bool-cases,
  inl, inr,
}
use sandboard.Prelude.Text.{trim, is_empty}
use sandboard.Prelude.Text.Pieces.{lacks}
use sandboard.Prelude.Result.{ok}
use sandboard.Map
use sandboard.Map.{nat_key}
use sandboard.Model.Item.{ItemId, WorkItem, Note}
use sandboard.Board.Event.{BoardEvent}
use sandboard.Board.Feed.{number_and_send, record_and_send}
use sandboard.Board.Transition.{get_card}
use sandboard.Board.Advance.{
  repo_of_card, card_matches_main_advanced_repo, main_advanced_steer_note, is_coalesced, live_ids,
  steer_found, steer_all, steer_live_cards_on_main_advanced, notify_main_advanced,
}
use sandboard.Board.Advance.Sha.{close, space, steer_card_again}
use sandboard.Board.Core.{Board, ◌>>=◌}

-- The card waits in the queue, and its last note is that of a notice of the commit, for a ref without
-- spaces and brackets.
pub record IsTold (sha : String) (it : WorkItem) : Type 0 where
  pub ref : String
  pub base : String
  pub old : List Note
  pub note : Note
  pub no_bracket : lacks close ref ≡ true
  pub no_space : lacks space ref ≡ true
  pub text : note.text ≡ main_advanced_steer_note ref (some sha) base
  pub last : it.notes ≡ old ++ note ∷ []
  pub waits : is_coalesced it ≡ true

-- A card that was told, or that is not on the repository.
abbrev pub IsSpared : String → String → String → Board → ItemId → Type 0
IsSpared upstream advanced_repo sha b id =
    (it : WorkItem)
    → Map.get b.state.items id ≡ some it
    → IsTold sha it ⊎ (card_matches_main_advanced_repo upstream b advanced_repo id ≡ false)

module _ (upstream advanced_repo ref sha : String) (sha_open : lacks close sha ≡ true)
    (plain : trim sha ≡ sha) (filled : is_empty sha ≡ false) where
  not_steered :
      (id : ItemId) (it : WorkItem) (b : Board)
      → IsTold sha it ⊎ (card_matches_main_advanced_repo upstream b advanced_repo id ≡ false)
      → steer_found upstream advanced_repo ref (some sha) id (some it) b ≡ (ok false, b)
  unfolding steer_found ◌>>=◌
  not_steered id it b (inr elsewhere) = rw elsewhere refl
  not_steered id it b (inl told) =
      let again = λ (base : String).
        steer_card_again told.ref ref sha told.base base it told.old told.note id b told.no_bracket
          told.no_space sha_open plain filled told.text told.last told.waits in
      elim (Bool-cases (card_matches_main_advanced_repo upstream b advanced_repo id)) [
        | inl here ↦ rw (here, again _) refl
        | inr elsewhere ↦ rw elsewhere refl
      ]

  none_steered :
      (ids : List ItemId) (b : Board)
      → All (IsSpared upstream advanced_repo sha b) ids
      → steer_all upstream advanced_repo ref (some sha) ids b ≡ (ok [], b)
  unfolding steer_all ◌>>=◌ steer_found
  none_steered [] b h = refl
  none_steered (id ∷ rest) b (here, h) = elim (Option-cases (Map.get b.state.items id)) [
    | inl gone ↦ rw (gone, none_steered rest b h) refl
    | inr (it, found) ↦ rw (found, not_steered id it b (here it found), none_steered rest b h) refl
  ]

  -- A notice of a commit that is not blank and has no bracket and no blanks around it, where each live card
  -- is on another repository, or waits in the queue with a last note of a notice of this commit, for a ref
  -- without spaces and brackets: only the event of the notice is numbered, recorded and sent, no card is
  -- steered and nothing else changes.
  pub notify_main_advanced_again :
      (b : Board)
      → All (IsSpared upstream advanced_repo sha b) (live_ids (Map.values b.state.items))
      → notify_main_advanced upstream advanced_repo ref (some sha) b
        ≡ (ok [], number_and_send (λ seq. BoardEvent.main_advanced seq ref (some sha)) b)
  unfolding notify_main_advanced steer_live_cards_on_main_advanced ◌>>=◌ number_and_send
      record_and_send card_matches_main_advanced_repo repo_of_card get_card
  notify_main_advanced_again b h =
      none_steered (live_ids (Map.values b.state.items))
        (number_and_send (λ seq. BoardEvent.main_advanced seq ref (some sha)) b) h
