-- ===== src/Board/Merge/Listed.antt =====
-- src/store.rs: what the list of a card's pull requests keeps.
use sandboard.Prelude.{ℕ, String, none}
use sandboard.Map
use sandboard.Map.{nat_key}
use sandboard.Model.PullRequest.{PullRequest}
use sandboard.Model.Item.{WorkItem}
use sandboard.Board.Merge.{normalize_pr_url, add_report, stamp}
use sandboard.Board.Core.{Board}

-- The card that a report leaves.
reported : ℕ → String → PullRequest → WorkItem → WorkItem
reported now url pr it = record it {
  pull_requests = add_report (normalize_pr_url url) (stamp now pr) it.pull_requests;
  legacy_pull_request = none;
  legacy_pr_url = none;
}
