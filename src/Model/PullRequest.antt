-- ===== src/Model/PullRequest.antt =====
-- src/model.rs: a pull request on a card.
use sandboard.Prelude.{ℕ, String, Option, none, some, Bool, ◌&&◌, not, false, if◌then◌else◌}
use sandboard.Prelude.Text.{trim, is_empty}
use sandboard.Model.Plan.{RepoConfig, normalized}

pub record PullRequestEnd : Type 0 where
  pub repo : String
  pub git_ref : String

pub record PullRequest : Type 0 where
  pub url : String
  pub base : Option PullRequestEnd
  pub head : Option PullRequestEnd
  pub merged : Bool
  pub reported_at : Option ℕ

-- `PullRequestEnd::new`
unfoldable pub new_end : String → String → PullRequestEnd
new_end repo git_ref = record {
  repo = trim repo;
  git_ref = let r = trim git_ref in if is_empty r then "main" else r;
}

unfoldable pub is_usable : PullRequestEnd → Bool
is_usable e = not (is_empty (trim e.repo)) && not (is_empty (trim e.git_ref))

unfoldable pub from_url : String → PullRequest
from_url url = record {
  url = trim url;
  base = none;
  head = none;
  merged = false;
  reported_at = none;
}

unfoldable pub url_str : PullRequest → Option String
url_str p = let u = trim p.url in if is_empty u then none else some u

unfoldable pub is_some_and_usable : Option PullRequestEnd → Bool
is_some_and_usable none = false
is_some_and_usable (some e) = is_usable e

unfoldable pub has_forge_ends : PullRequest → Bool
has_forge_ends p = is_some_and_usable p.base && is_some_and_usable p.head

usable : Option PullRequestEnd → Option PullRequestEnd
usable none = none
usable (some e) = if is_usable e then some e else none

or_end : Option PullRequestEnd → PullRequestEnd → PullRequestEnd
or_end none e = e
or_end (some h) _ = h

config_of : Option PullRequestEnd → Option PullRequestEnd → Option RepoConfig
unfolding or_end
config_of none head = none
config_of (some base) head = some (
    normalized
      (record { upstream = base.repo; fork = (or_end head base).repo; base = base.git_ref }))

-- The remotes of a run; without a head the base repository is pushed to.
unfoldable pub to_repo_config : PullRequest → Option RepoConfig
unfolding config_of usable
to_repo_config p = config_of (usable p.base) (usable p.head)
