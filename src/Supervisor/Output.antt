-- ===== src/Supervisor/Output.antt =====
-- src/supervisor.rs: what is read back from the scripts that run in a sandbox.
use Prim.Native.Char.{code}
use sandboard.Prelude.{
  ℕ, ◌+◌, ◌%◌, ◌^◌, String, Option, none, some, List, [], ◌∷◌, false, ◌&&◌, ◌||◌, not, ◌==◌,
  find_map, if◌then◌else◌,
}
use sandboard.Prelude.Text.{
  contains, trim, is_empty, strip_prefix, lines, split, split_whitespace, str_eq,
}
use sandboard.Prelude.Text.Parse.{parse_unsigned, to_ascii_uppercase}
use sandboard.Model.PullRequest.{PullRequest, new_end}

abbrev pub u32_max : ℕ
u32_max = 4294967295

abbrev pub u64_max : ℕ
u64_max = 18446744073709551615

-- The line after the last one that was streamed; the count wraps like the source's `u64`.
unfoldable pub next_line : Option String → Option ℕ
next_line none = none
next_line (some count) = elim (parse_unsigned u64_max (trim count)) [
  | none ↦ none
  | some n ↦ some ((n + 1) % 2 ^ 64)
]

unfoldable pub probe_of : String → Option ℕ
unfolding next_line
probe_of stdout =
    if not (contains stdout "SANDBOARD-AGENT-ALIVE")
      && not (contains stdout "SANDBOARD-AGENT-EXITED")
    then none
    else next_line (find_map (λ l. strip_prefix l "SANDBOARD-LOG-LINES=") (lines stdout))

abbrev or_text : String → String → String
or_text s default = if is_empty s then default else s

-- The five fields of a binding line; more fields are not looked at.
binding : List String → Option PullRequest
binding (url ∷ base_repo ∷ base_ref ∷ head_repo ∷ head_ref ∷ _) =
    if is_empty (trim url) || is_empty (trim base_repo)
    then none
    else some (record {
      url = trim url;
      base = some (new_end (trim base_repo) (trim base_ref));
      head =
          some
            (new_end (or_text (trim head_repo) (trim base_repo)) (or_text (trim head_ref) "main"));
      merged = false;
      reported_at = none;
    })
binding _ = none

-- The first line with the mark decides.
binding_in : List String → Option PullRequest
unfolding binding
binding_in [] = none
binding_in (line ∷ rest) = elim (strip_prefix (trim line) "SANDBOARD-PR-BIND=") [
  | none ↦ binding_in rest
  | some fields ↦ binding (split (λ c. code c == b'|') fields)
]

unfoldable pub parse_pr_binding_line : String → Option PullRequest
unfolding binding_in
parse_pr_binding_line stdout = binding_in (lines stdout)

pub data PrMergeable : Type 0 where
  mergeable conflicting unknown : PrMergeable

mergeable_of : String → PrMergeable
mergeable_of value =
    if str_eq value "MERGEABLE"
    then PrMergeable.mergeable
    else if str_eq value "CONFLICTING"
    then PrMergeable.conflicting
    else PrMergeable.unknown

mergeable_in : List String → PrMergeable
unfolding mergeable_of
mergeable_in [] = PrMergeable.unknown
mergeable_in (line ∷ rest) = elim (strip_prefix (trim line) "SANDBOARD-PR-MERGEABLE=") [
  | none ↦ mergeable_in rest
  | some value ↦ mergeable_of (to_ascii_uppercase (trim value))
]

unfoldable pub parse_pr_mergeable : String → PrMergeable
unfolding mergeable_in
parse_pr_mergeable stdout = mergeable_in (lines stdout)

unfoldable pub parse_pr_url : String → Option String
parse_pr_url stdout = find_map (λ l. strip_prefix l "SANDBOARD-PR-URL=") (lines stdout)

-- The sum wraps like the source's `u32`.
unfoldable pub add_count : ℕ → Option ℕ → ℕ
add_count total none = total
add_count total (some n) = (total + n) % 2 ^ 32

unfoldable pub add_parts : List String → ℕ × ℕ → ℕ × ℕ
unfolding add_count
add_parts (a ∷ r ∷ _) (added, removed) =
    (add_count added (parse_unsigned u32_max a), add_count removed (parse_unsigned u32_max r))
add_parts _ counts = counts

unfoldable pub add_lines : List String → ℕ × ℕ → ℕ × ℕ
unfolding add_parts
add_lines [] counts = counts
add_lines (line ∷ rest) counts =
    let words = split_whitespace (trim line) in
    add_lines rest (if is_empty (trim line) then counts else add_parts words counts)

unfoldable pub parse_diffstat : String → ℕ × ℕ
unfolding add_lines
parse_diffstat stdout = add_lines (lines stdout) (0, 0)

pub data BranchState : Type 0 where
  fresh rebased conflicted : BranchState

unfoldable pub branch_state_of : String → BranchState
branch_state_of stdout =
    if contains stdout "SANDBOARD-BRANCH-CONFLICT"
    then BranchState.conflicted
    else if contains stdout "SANDBOARD-BRANCH-REBASED"
    then BranchState.rebased
    else BranchState.fresh
