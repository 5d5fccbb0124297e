-- ===== src/Board/Split.antt =====
-- src/store.rs: a split that an agent proposes: the children are checked and stand as a proposal on the
-- card in Review.
pub mod Related
use Prim.Native.Char.{Char}
use Prim.Native.String.{len, slice}
use text.Mathlib.Text.{is_char_boundary}
use sandboard.Prelude.{
  ℕ, ◌+◌, min, String, Option, none, some, List, [], ◌∷◌, ◌++◌, Bool, true, false, ◌&&◌, ◌||◌, not,
  is_some, is_empty, any, keep, map, length, ltb, leb, if◌then◌else◌,
}
use sandboard.Prelude.Text
use sandboard.Prelude.Text.{format, show_ℕ, trim, to_lowercase, split, join, starts_with, str_eq}
use sandboard.Prelude.Result.{Result, ok, err}
use sandboard.Map
use sandboard.Map.{nat_key}
use sandboard.Model.State.{State}
use sandboard.Model.Plan.{RepoConfig, PlanTaskSpec}
use sandboard.Model.Item.{ItemId, WorkItem, EscalationOption, is_initial_plan_task, pr_url}
use sandboard.Board.Tree.{parent_of}
use sandboard.Board.Feed.{story}
use sandboard.Board.Transition.{require_card}
use sandboard.Board.Proposal.{normalize_title, set_proposal}
use sandboard.Board.Moves.{transition_str}
use sandboard.Board.Worker.{escalate}
use sandboard.Board.Core.{Board, Action, pure, raise, lift, gets, modify, ◌>>=◌, ◌>>◌, attempt}

pub record SplitChildSpec : Type 0 where
  pub title : String
  pub intent : String
  pub definition_of_done : String
  pub key : Option String
  pub blocked_by_keys : List String
  pub repo : Option RepoConfig

stop_words : List String
stop_words =
    "a" ∷ "an" ∷ "the" ∷ "and" ∷ "or" ∷ "but" ∷ "if" ∷ "because" ∷ "as" ∷ "until" ∷ "while" ∷ "of"
    ∷ "at" ∷ "by" ∷ "for" ∷ "with" ∷ "about" ∷ "against" ∷ "between" ∷ "into" ∷ "through" ∷ "during"
    ∷ "before" ∷ "after" ∷ "above" ∷ "below" ∷ "to" ∷ "from" ∷ "up" ∷ "down" ∷ "in" ∷ "out" ∷ "on"
    ∷ "off" ∷ "over" ∷ "under" ∷ "again" ∷ "further" ∷ "then" ∷ "once" ∷ "here" ∷ "there" ∷ "when"
    ∷ "where" ∷ "why" ∷ "how" ∷ "all" ∷ "any" ∷ "both" ∷ "each" ∷ "few" ∷ "more" ∷ "most" ∷ "other"
    ∷ "some" ∷ "such" ∷ "no" ∷ "nor" ∷ "not" ∷ "only" ∷ "own" ∷ "same" ∷ "so" ∷ "than" ∷ "too"
    ∷ "very" ∷ "s" ∷ "t" ∷ "can" ∷ "will" ∷ "just" ∷ "don" ∷ "should" ∷ "now" ∷ "is" ∷ "are" ∷ "was"
    ∷ "were" ∷ "be" ∷ "been" ∷ "being" ∷ "have" ∷ "has" ∷ "had" ∷ "do" ∷ "does" ∷ "did" ∷ "doing"
    ∷ "would" ∷ "could" ∷ "this" ∷ "that" ∷ "these" ∷ "those" ∷ "i" ∷ "you" ∷ "he" ∷ "she" ∷ "it"
    ∷ "we" ∷ "they" ∷ "me" ∷ "him" ∷ "her" ∷ "us" ∷ "them" ∷ "my" ∷ "your" ∷ "his" ∷ "their" ∷ "our"
    ∷ "its" ∷ []

is_word : String → Bool
unfolding stop_words
is_word s = leb 2 (len s) && not (any (λ w. str_eq w s) stop_words)

-- The words of a text, as a list where the source has a set.
unfoldable pub tokenize_text : (Char → Bool) → String → List String
unfolding is_word
tokenize_text is_alphanumeric text =
    keep is_word (split (λ c. not (is_alphanumeric c)) (to_lowercase text))

unfoldable pub is_token_related : String → String → Bool
is_token_related child_token theme_token =
    let min_len = min (len child_token) (len theme_token) in
    str_eq child_token theme_token
    || leb 3 min_len
      && ((starts_with child_token theme_token || starts_with theme_token child_token)
          || leb 4 min_len
            && is_char_boundary child_token 4
            && is_char_boundary theme_token 4
            && str_eq (slice child_token 0 4) (slice theme_token 0 4))

unfoldable pub child_is_related : List String → List String → Bool
unfolding is_token_related
child_is_related child_tokens theme_tokens =
    if is_empty theme_tokens
    then true
    else any (λ c. any (λ t. is_token_related c t) theme_tokens) child_tokens

dod_text : Option String → String
dod_text none = ""
dod_text (some d) = format (" " ∷ d ∷ [])

unfoldable pub theme_text : WorkItem → WorkItem → String
unfolding dod_text
theme_text card project = format (
    project.title
    ∷ " "
    ∷ project.intent
    ∷ " "
    ∷ card.title
    ∷ " "
    ∷ card.intent
    ∷ dod_text card.definition_of_done
    ∷ [])

unfoldable pub child_text : SplitChildSpec → String
child_text child = format (child.title ∷ " " ∷ child.intent ∷ " " ∷ child.definition_of_done ∷ [])

unfoldable pub check_children :
    (Char → Bool) → List String → List SplitChildSpec → Result String Unit
check_children is_alphanumeric theme [] = ok tt
check_children is_alphanumeric theme (child ∷ rest) =
    if child_is_related (tokenize_text is_alphanumeric (child_text child)) theme
    then check_children is_alphanumeric theme rest
    else err (
        format (
          "split child '" ∷ child.title ∷ "' does not relate to parent card or project theme" ∷ []))

unfoldable pub check_split_relatedness :
    (Char → Bool) → WorkItem → WorkItem → List SplitChildSpec → Result String Unit
check_split_relatedness is_alphanumeric card project children =
    check_children is_alphanumeric (tokenize_text is_alphanumeric (theme_text card project))
      children

key_of : ℕ → Option String → String
key_of idx none = format ("s" ∷ show_ℕ (idx + 1) ∷ [])
key_of idx (some k) =
    if Text.is_empty (trim k) then format ("s" ∷ show_ℕ (idx + 1) ∷ []) else trim k

unfoldable pub child_spec : ℕ → SplitChildSpec → PlanTaskSpec
unfolding key_of
child_spec idx child = record {
  key = key_of idx child.key;
  title = child.title;
  intent = child.intent;
  definition_of_done = child.definition_of_done;
  blocked_by_keys = child.blocked_by_keys;
  capability = none;
  repo = child.repo;
  item_id = none;
}

unfoldable pub has_title : List String → String → Bool
has_title seen title_key = any (λ t. str_eq t title_key) seen

-- The children with a title of their own; the index counts the others, too.
unfoldable pub distinct_specs : ℕ → List String → List SplitChildSpec → List PlanTaskSpec
distinct_specs idx seen [] = []
distinct_specs idx seen (child ∷ rest) =
    let title_key = normalize_title child.title in
    elim (Text.is_empty title_key || has_title seen title_key) [
      | true ↦ distinct_specs (idx + 1) seen rest
      | false ↦ child_spec idx child ∷ distinct_specs (idx + 1) (title_key ∷ seen) rest
    ]

published_options : List EscalationOption
published_options =
    record {
      label = "Finish card via report";
      detail = "Complete the card with the existing PR using report.";
    }
    ∷ record {
      label = "Close PR and retry split";
      detail = "Close or abandon the existing PR before splitting the card.";
    }
    ∷ []

-- A card with a pull request is not split: a human is asked.
unfoldable pub refuse_published : ItemId → String → Option String → Action String Unit
unfolding published_options
refuse_published id agent_id none = pure tt
refuse_published id agent_id (some url) = do
  let msg = format (
      "cannot propose split on card #"
      ∷ show_ℕ id
      ∷ ": a PR already exists ("
      ∷ url
      ∷ "); split and publish are mutually exclusive"
      ∷ [])
  attempt {E = String} (escalate id agent_id msg published_options 0)
  raise msg

check_count : List SplitChildSpec → ℕ → Result String Unit
check_count children max_children =
    if ltb (length children) 2
    then err "a split needs at least two siblings; use report if the work is one card"
    else if ltb max_children (length children)
    then err (
        format (
          "split of "
          ∷ show_ℕ (length children)
          ∷ " siblings exceeds max_children_per_split="
          ∷ show_ℕ max_children
          ∷ "; escalating rather than fanning out"
          ∷ []))
    else ok tt

need_project : Option ItemId → Result String ItemId
need_project none = err "cannot split a Project; only Tasks under a Project can split into siblings"
need_project (some p) = ok p

unfoldable pub propose_split :
    (Char → Bool) → ItemId → String → List SplitChildSpec → ℕ → Action String WorkItem
unfolding check_count need_project
propose_split is_alphanumeric id agent_id children max_children = do
  card ← require_card "no such item" id
  if is_initial_plan_task card
      then raise
          "Initial plan cannot use split.json; finish with plan.json (Review); Approve materializes sibling Tasks"
      else pure tt
  refuse_published id agent_id (pr_url card)
  lift (check_count children max_children)
  project_id ← lift (need_project card.parent)
  project ← require_card "project not found" project_id
  nested ← gets (λ b. is_some (parent_of (Map.get b.state.items project_id)))
  if nested then raise "split target is not under a Project root" else pure tt
  lift (check_split_relatedness is_alphanumeric card project children)
  let specs = distinct_specs 0 [] children
  if ltb (length specs) 2
      then raise
          "a split needs at least two distinct sibling titles; use report if the work is one card"
      else pure tt
  set_proposal id
      (record { summary = format ("Split of «" ∷ card.title ∷ "»" ∷ []); tasks = specs })
  item ← transition_str id State.review agent_id (some "proposed sibling Tasks — awaiting Approve")
  modify (
      story project_id (
        format (
          card.title
          ∷ " proposed "
          ∷ show_ℕ (length specs)
          ∷ " sibling Tasks — Approve to create them: "
          ∷ join ", " (map (λ (t : PlanTaskSpec). t.title) specs)
          ∷ "."
          ∷ [])))
  pure item
