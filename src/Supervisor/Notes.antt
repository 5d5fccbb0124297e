-- ===== src/Supervisor/Notes.antt =====
-- src/supervisor.rs: what the notes on a card tell the next run.
use Prim.Native.Char.{code}
use sandboard.Prelude.{String, Option, none, some, List, [], ◌∷◌, Bool, ◌||◌, ◌==◌, if◌then◌else◌}
use sandboard.Prelude.Text.{trim, contains, starts_with, strip_prefix, split_whitespace}
use sandboard.Prelude.Text.Parse.{trim_start_matches, trim_end_matches}

abbrev or_else : Option String → Option String → Option String
or_else none o = o
or_else (some s) _ = some s

abbrev trimmed : Option String → Option String
trimmed none = none
trimmed (some s) = some (trim s)

abbrev or_text : Option String → String → String
or_text none default = default
or_text (some s) _ = s

-- The note without its `Decision:`.
unfoldable pub decision_text : String → String
decision_text raw =
    or_text (trimmed (or_else (strip_prefix raw "Decision:") (strip_prefix raw "decision:"))) raw

-- What follows the word that a decision to clone begins with.
unfoldable pub clone_text : String → Option String
clone_text decision = trimmed (
    or_else (or_else (strip_prefix decision "Clone ") (strip_prefix decision "clone "))
      (or_else (strip_prefix decision "Clone target:") (strip_prefix decision "clone target:")))

is_bracket : Prim.Native.Char.Char → Bool
is_bracket c =
    code c == b')' || code c == b'(' || code c == b',' || code c == b';' || code c == b'.'

unbracketed : String → String
unfolding is_bracket
unbracketed s = trim_end_matches is_bracket (trim_start_matches is_bracket s)

abbrev first_word : List String → Option String
first_word [] = none
first_word (w ∷ _) = some w

names_repository : String → Bool
names_repository token = contains token "/" || starts_with token "http"

-- The notes from the newest to the oldest. The operator `?` of the source leaves the function, so that a
-- note which is no decision to clone ends the search.
unfoldable pub clone_target_in : List String → Option String
unfolding decision_text clone_text unbracketed names_repository
clone_target_in [] = none
clone_target_in (n ∷ older) = elim (clone_text (decision_text (trim n))) [
  | none ↦ none
  | some after ↦ elim (first_word (split_whitespace after)) [
    | none ↦ none
    | some word ↦
        let rest = clone_target_in older in
        if names_repository (unbracketed word) then some (unbracketed word) else rest
  ]
]

unfoldable pub reversed : List String → List String → List String
reversed [] out = out
reversed (n ∷ rest) out = reversed rest (n ∷ out)

unfoldable pub clone_target_from_notes : List String → Option String
unfolding clone_target_in reversed
clone_target_from_notes notes = clone_target_in (reversed notes [])

proof_of : Option String → Option String
proof_of none = none
proof_of (some rest) = if contains rest "pr_url=" then some rest else none

unfoldable pub proof_in : String → Option String
unfolding proof_of
proof_in body =
    or_else (proof_of (trimmed (or_else (strip_prefix body "Proof:") (strip_prefix body "proof:"))))
      (if contains body "pr_url=" then some body else none)

unfoldable pub proof_facts_in : List String → Option String
unfolding proof_in decision_text
proof_facts_in [] = none
proof_facts_in (n ∷ older) = or_else (proof_in (decision_text (trim n))) (proof_facts_in older)

unfoldable pub proof_facts_from_notes : List String → Option String
unfolding proof_facts_in reversed
proof_facts_from_notes notes = proof_facts_in (reversed notes [])
