-- ===== src/Schema/Remotes.antt =====
-- src/schema.rs: `owner/name` and the line of prose that names the repository to clone.
use Prim.Native.Char.{Char, code}
use sandboard.Prelude.{
  ◌≡◌, refl, String, Option, none, some, List, [], ◌∷◌, Bool, true, ◌&&◌, ◌||◌, not, leb, ◌==◌,
  if◌then◌else◌,
}
use sandboard.Prelude.Text.{
  format, trim, is_empty, contains, starts_with, strip_prefix, strip_suffix, split,
  split_whitespace, lines,
}
use sandboard.Prelude.Result.{Result, ok, err}

-- The four texts with which `parse_owner_name` refuses, each with the text that it quotes.
pub data OwnerNameError : Type 0 where
  required : OwnerNameError
  is_url not_two_parts not_valid : String → OwnerNameError

is_name_char : Char → Bool
is_name_char c =
    let n = code c in
    leb b'0' n && leb n b'9'
    || leb b'a' n && leb n b'z'
    || leb b'A' n && leb n b'Z'
    || n == b'-'
    || n == b'_'
    || n == b'.'

all_name_chars : String → Bool
unfolding is_name_char
all_name_chars String.[] = true
all_name_chars (String.◌∷◌ c s) = is_name_char c && all_name_chars s

from_parts : String → List String → Result OwnerNameError String
unfolding all_name_chars
from_parts s (owner ∷ name ∷ []) =
    if is_empty owner || is_empty name || not (all_name_chars owner) || not (all_name_chars name)
    then err (OwnerNameError.not_valid s)
    else ok (format (owner ∷ "/" ∷ name ∷ []))
from_parts s _ = err (OwnerNameError.not_two_parts s)

unwrap_or : Option String → String → String
unwrap_or none s = s
unwrap_or (some t) _ = t

unfoldable pub parse_owner_name : String → Result OwnerNameError String
unfolding from_parts unwrap_or
parse_owner_name raw =
    let s = trim raw in
    let stem = unwrap_or (strip_suffix s ".git") s in
    if is_empty s
    then err OwnerNameError.required
    else if contains s "://" || starts_with s "git@"
    then err (OwnerNameError.is_url s)
    else from_parts stem (split (λ c. code c == b'/') stem)

unfoldable pub clone_repo_prose_line : String → String
clone_repo_prose_line owner_name = format (
    "Clone repository: " ∷ owner_name
    ∷ " into /sandbox/repo for planning and as the default Task clone target." ∷ [])

or_else : Option String → Option String → Option String
or_else none o = o
or_else (some s) _ = some s

first_token : List String → Option String
first_token [] = none
first_token (s ∷ _) = some s

ok_name : Result OwnerNameError String → Option String
ok_name (ok name) = some name
ok_name (err _) = none

-- The repository that one line names.
named_on : String → Option String
unfolding or_else first_token ok_name parse_owner_name
named_on line =
    let t = trim line in
    elim (or_else (strip_prefix t "Clone repository:") (strip_prefix t "clone repository:")) [
      | none ↦ none
      | some rest ↦ elim (first_token (split_whitespace rest)) [
        | none ↦ none
        | some token ↦ ok_name (parse_owner_name token)
      ]
    ]

first_named : List String → Option String
unfolding named_on
first_named [] = none
first_named (line ∷ rest) = or_else (named_on line) (first_named rest)

unfoldable pub clone_repo_from_prose : String → Option String
unfolding first_named
clone_repo_from_prose text = first_named (lines text)

stamped :
    clone_repo_from_prose
      "Rework settings.\n\nClone repository: sandboard-app/sandboard into /sandbox."
    ≡ some "sandboard-app/sandboard"
unfolding clone_repo_from_prose lines trim strip_prefix strip_suffix split split_whitespace contains
    format
stamped = refl
