-- ===== src/Board/Repo.antt =====
-- src/store.rs: the repository of a card, from its pull requests.
use Prim.Native.Char.{code}
use Prim.Native.String.{slice, len}
use sandboard.Prelude.{
  ℕ, ◌+◌, String, Option, none, some, List, [], ◌∷◌, ◌||◌, not, ◌==◌, if◌then◌else◌,
}
use sandboard.Prelude.Text.{format, show_ℕ, trim, is_empty, to_lowercase, str_eq, find?, split}
use sandboard.Prelude.Text.Parse.{parse_unsigned, trim_end_matches}
use sandboard.Prelude.Result.{Result, ok, err}
use sandboard.Model.Plan.{RepoConfig, normalized}
use sandboard.Model.PullRequest.{PullRequest, url_str, to_repo_config}
use sandboard.Model.Item.{ItemId, WorkItem, unmerged_prs}
use sandboard.Board.Transition.{require_card}
use sandboard.Board.Core.{Action, lift, ◌>>=◌}

-- The text before a query or a fragment.
number_text : List String → String → String
number_text [] num = num
number_text (s ∷ _) num = s

numbered : String → String → Option ℕ → Option (String × ℕ)
numbered owner repo none = none
numbered owner repo (some n) = some (format (owner ∷ "/" ∷ repo ∷ []), n)

pull_of : List String → Option (String × ℕ)
unfolding number_text numbered
pull_of (owner ∷ repo ∷ pull ∷ num ∷ _) =
    if not (str_eq (to_lowercase pull) "pull") || is_empty (trim owner) || is_empty (trim repo)
    then none
    else numbered (trim owner) (trim repo) (
        parse_unsigned 18446744073709551615
          (number_text (split (λ c. code c == b'?' || code c == b'#') num) num))
pull_of _ = none

github_marker : String
github_marker = "github.com/"

unfoldable pub parse_github_pr_url : String → Option (String × ℕ)
unfolding pull_of github_marker
parse_github_pr_url url =
    let u = trim_end_matches (λ c. code c == b'/') (trim url) in
    elim (find? (to_lowercase u) github_marker) [
      | none ↦ none
      | some idx ↦ pull_of (split (λ c. code c == b'/') (slice u (idx + len github_marker) (len u)))
    ]

first_pr : List PullRequest → List PullRequest → Option PullRequest
first_pr (p ∷ _) listed = some p
first_pr [] (p ∷ _) = some p
first_pr [] [] = none

from_parsed : ItemId → String → Option (String × ℕ) → Result String (Option RepoConfig)
from_parsed id url none = err (
    format
      ("card #" ∷ show_ℕ id ∷ " pull_request.url is not a parseable GitHub pull URL: " ∷ url ∷ []))
from_parsed id url (some (upstream, _)) =
    ok (some (normalized (record { upstream = upstream; fork = upstream; base = "main" })))

from_url : ItemId → Option String → Result String (Option RepoConfig)
unfolding from_parsed parse_github_pr_url
from_url id none = ok none
from_url id (some url) = from_parsed id url (parse_github_pr_url url)

-- A pull request with a base names its remotes; one with a URL only stands for its repository.
unfoldable pub repo_of : ItemId → Option PullRequest → Result String (Option RepoConfig)
unfolding from_url
repo_of id none = ok none
repo_of id (some pr) = elim (to_repo_config pr) [
  | none ↦ from_url id (url_str pr)
  | some repo ↦ ok (some repo)
]

unfoldable pub card_repo : WorkItem → ItemId → Result String (Option RepoConfig)
unfolding repo_of first_pr
card_repo item id = repo_of id (first_pr (unmerged_prs item) item.pull_requests)

unfoldable pub resolve_card_repo : ItemId → Action String (Option RepoConfig)
unfolding card_repo
resolve_card_repo item_id = do
  item ← require_card (format ("no such item #" ∷ show_ℕ item_id ∷ [])) item_id
  lift (card_repo item item_id)
