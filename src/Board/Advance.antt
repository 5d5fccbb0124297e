-- ===== src/Board/Advance.antt =====
-- src/store.rs: the notice that a default branch has advanced, and what it does to the cards that run.
pub mod Sha
pub mod Again
use Prim.Native.Char.{code}
use sandboard.Prelude.{
  ℕ, String, Option, none, some, List, [], ◌∷◌, ◌++◌, Bool, true, false, ◌&&◌, ◌||◌, not, any, keep,
  find_map, if◌then◌else◌, is_some,
}
use sandboard.Prelude.Text.{format, trim, is_empty, str_eq, opt_str_eq, starts_with, strip_prefix}
use sandboard.Prelude.Text.Parse.{split_once}
use sandboard.Prelude.Result.{Result, ok, err}
use sandboard.Map
use sandboard.Map.{nat_key}
use sandboard.Model.State.{State, state_eq}
use sandboard.Model.Plan.{RepoConfig}
use sandboard.Model.Item.{ItemId, WorkItem, Note}
use sandboard.Board.Event.{BoardEvent}
use sandboard.Board.Feed.{number_and_send, story}
use sandboard.Board.Transition.{get_card}
use sandboard.Board.Repo.{card_repo}
use sandboard.Board.Rebase.{identify_all_behind_sibling_prs}
use sandboard.Board.Human.{steer, park, unpark}
use sandboard.Board.Core.{Board, Action, pure, gets, modify, ◌>>=◌, ◌>>◌, succeeds, attempt}

-- `resolve_card_repo(id).ok().flatten()`
flat_repo : Result String (Option RepoConfig) → Option RepoConfig
flat_repo (ok repo) = repo
flat_repo (err e) = none

repo_found : ItemId → Option WorkItem → Option RepoConfig
unfolding flat_repo
repo_found id none = none
repo_found id (some it) = flat_repo (card_repo it id)

unfoldable pub repo_of_card : Board → ItemId → Option RepoConfig
unfolding repo_found
repo_of_card b id = repo_found id (get_card b id)

-- `upstream` is the default upstream of the schema's agents, for a card that names no repository.
unfoldable pub card_matches_main_advanced_repo : String → Board → String → ItemId → Bool
card_matches_main_advanced_repo upstream b advanced_repo card_id =
    let advanced = trim advanced_repo in
    if is_empty advanced then false else elim (repo_of_card b card_id) [
      | none ↦ not (is_empty (trim upstream)) && str_eq (trim upstream) advanced
      | some repo ↦ str_eq repo.upstream advanced
    ]

unfoldable pub where_main : String → Option String → String
where_main ref_name none = ref_name
where_main ref_name (some sha) =
    if is_empty sha then ref_name else format (ref_name ∷ " @ " ∷ sha ∷ [])

base_or_main : String → String
base_or_main base = if is_empty (trim base) then "main" else trim base

unfoldable pub main_advanced_steer_note : String → Option String → String → String
unfolding where_main base_or_main
main_advanced_steer_note ref_name commit_sha base = format (
    "Main advanced ("
    ∷ where_main ref_name commit_sha
    ∷ "). First action: fetch upstream "
    ∷ base_or_main base
    ∷ " and rebase this card's branch onto upstream/"
    ∷ base_or_main base
    ∷ " (not origin/"
    ∷ base_or_main base
    ∷ " alone — the fork's base freezes at create time), then continue the card."
    ∷ [])

unfoldable pub main_advanced_steer_story : String → String → Option String → String → String
unfolding where_main base_or_main
main_advanced_steer_story title ref_name commit_sha base = format (
    title
    ∷ ": "
    ∷ where_main ref_name commit_sha
    ∷ " advanced — live run interrupted for rebase (auto-steered; fetch upstream "
    ∷ base_or_main base
    ∷ " and continue)."
    ∷ [])

unfoldable pub is_main_advanced_steer_note : String → Bool
is_main_advanced_steer_note text = starts_with text "Main advanced ("

unfoldable pub has_main_advanced_steer_note : List Note → Bool
has_main_advanced_steer_note notes = any (λ n. is_main_advanced_steer_note n.text) notes

unfoldable pub sha_in : Option (String × String) → Option String
sha_in none = none
sha_in (some parts) = if is_empty (trim parts.1) then none else some (trim parts.1)

unfoldable pub inside : Option (String × String) → Option String
unfolding sha_in
inside none = none
inside (some parts) = sha_in (split_once parts.0 " @ ")

unfoldable pub parse_main_advanced_steer_commit_sha : String → Option String
unfolding inside
parse_main_advanced_steer_commit_sha text = elim (strip_prefix text "Main advanced (") [
  | none ↦ none
  | some rest ↦ inside (split_once rest ")")
]

unfoldable pub reversed : List Note → List Note → List Note
reversed [] out = out
reversed (n ∷ rest) out = reversed rest (n ∷ out)

unfoldable pub last_main_advanced_steer_commit_sha : List Note → Option String
unfolding reversed
last_main_advanced_steer_commit_sha notes =
    find_map (λ (n : Note). parse_main_advanced_steer_commit_sha n.text)
      (keep (λ n. is_main_advanced_steer_note n.text) (reversed notes []))

unfoldable pub norm : Option String → Option String
norm none = none
norm (some s) = if is_empty (trim s) then none else some (trim s)

unfoldable pub main_advanced_sha_unchanged : Option String → Option String → Bool
unfolding norm
main_advanced_sha_unchanged new_sha prev_sha = opt_str_eq (norm new_sha) (norm prev_sha)

-- A card that a notice has steered before, and that waits in the queue since.
unfoldable pub is_coalesced : WorkItem → Bool
is_coalesced it =
    state_eq it.state State.backlog
    && it.awaiting_dispatch
    && not it.parked
    && has_main_advanced_steer_note it.notes

unfoldable pub is_live : WorkItem → Bool
unfolding is_coalesced
is_live it = state_eq it.state State.claimed || state_eq it.state State.running || is_coalesced it

unfoldable pub live_ids : List WorkItem → List ItemId
live_ids [] = []
live_ids (it ∷ rest) = let later = live_ids rest in if is_live it then it.id ∷ later else later

base_of : Option RepoConfig → String
base_of none = "main"
base_of (some r) = r.base

parked_now : Option WorkItem → Bool
parked_now none = false
parked_now (some it) = it.parked

-- Steering alone does not reach a turn that runs: the run is parked and queued again.
unfoldable pub interrupt : ItemId → Action String Unit
unfolding parked_now
interrupt id = do
  already ← gets (λ b. parked_now (Map.get b.state.items id))
  if already then pure tt else (do
    parked ← succeeds (park id (some "main advanced"))
    if parked then attempt (unpark id) else pure tt)

unfoldable pub told : ItemId → String → String → Action String Bool
told id note line = do
  steered ← succeeds (steer id note)
  if steered then (do modify (story id line); pure true) else pure false

unfoldable pub steer_card : String → Option String → ItemId → WorkItem → String → Action String Bool
unfolding told
steer_card ref_name commit_sha id it base =
    let note = main_advanced_steer_note ref_name commit_sha base in
    let line = main_advanced_steer_story it.title ref_name commit_sha base in
    if is_coalesced it
    then (if main_advanced_sha_unchanged commit_sha (last_main_advanced_steer_commit_sha it.notes)
        then pure false
        else told id note line)
    else (do steered ← told id note line; if steered then interrupt id else pure tt; pure steered)

-- The source expects the card to be there: it was when the candidates were chosen.
unfoldable pub steer_found :
    String → String → String → Option String → ItemId → Option WorkItem → Action String Bool
unfolding base_of
steer_found upstream advanced_repo ref_name commit_sha id none = pure false
steer_found upstream advanced_repo ref_name commit_sha id (some it) = do
  matches ← gets (λ b. card_matches_main_advanced_repo upstream b advanced_repo id)
  base ← gets (λ b. base_of (repo_of_card b id))
  if matches then steer_card ref_name commit_sha id it base else pure false

unfoldable pub steer_all :
    String → String → String → Option String → List ItemId → Action String (List ItemId)
unfolding steer_found
steer_all upstream advanced_repo ref_name commit_sha [] = pure []
steer_all upstream advanced_repo ref_name commit_sha (id ∷ rest) = do
  found ← gets (λ b. Map.get b.state.items id)
  steered ← steer_found upstream advanced_repo ref_name commit_sha id found
  later ← steer_all upstream advanced_repo ref_name commit_sha rest
  pure (if steered then id ∷ later else later)

unfoldable pub steer_live_cards_on_main_advanced :
    String → String → String → Option String → Action String (List ItemId)
unfolding live_ids
steer_live_cards_on_main_advanced upstream advanced_repo ref_name commit_sha = do
  ids ← gets (λ b. live_ids (Map.values b.state.items))
  steer_all upstream advanced_repo ref_name commit_sha ids

unfoldable pub notify_main_advanced :
    String → String → String → Option String → Action String (List ItemId)
notify_main_advanced upstream advanced_repo ref_name commit_sha = do
  modify (number_and_send (λ seq. BoardEvent.main_advanced seq ref_name commit_sha))
  steer_live_cards_on_main_advanced upstream advanced_repo ref_name commit_sha

unfoldable pub identify_review_prs_for_main_advanced : String → Board → String → List WorkItem
identify_review_prs_for_main_advanced upstream b advanced_repo =
    keep (λ it. card_matches_main_advanced_repo upstream b advanced_repo it.id)
      (identify_all_behind_sibling_prs b)
