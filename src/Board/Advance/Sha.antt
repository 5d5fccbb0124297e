-- ===== src/Board/Advance/Sha.antt =====
-- src/store.rs: a notice is told from an earlier one by the commit that the note on the card names.
use Prim.Native.Char.{Char}
use Prim.Native.String.{◌++◌ as ◌+++◌}
use text.Mathlib.TextPositions.{starts_with-append}
use text.Mathlib.TextLemmas.{append_assoc, append-nil}
use sandboard.Prelude.{
  ◌≡◌, refl, ap, ◌∙◌, String, Option, none, some, List, [], ◌∷◌, ◌++◌, true, false, arith, eq_iff,
  find_map,
}
use sandboard.Prelude.Text.{format, trim, is_empty, opt_str_eq}
use sandboard.Prelude.Text.Parse.{split_once}
use sandboard.Prelude.Text.Pieces.{lacks, append-lacks, strip_prefix-append, split_once-append}
use sandboard.Prelude.Result.{ok}
use sandboard.Model.Item.{ItemId, WorkItem, Note}
use sandboard.Board.Advance.{
  where_main, main_advanced_steer_note, sha_in, inside, parse_main_advanced_steer_commit_sha,
  is_main_advanced_steer_note, reversed, norm, last_main_advanced_steer_commit_sha,
  main_advanced_sha_unchanged, is_coalesced, steer_card,
}
use sandboard.Board.Core.{Board, ◌>>=◌}

abbrev pub close : Char
close = ")"

abbrev pub space : Char
space = " "

named :
    (ref sha : String)
    → is_empty sha ≡ false
    → where_main ref (some sha) ≡ ref +++ (" @ " +++ (sha +++ ""))
unfolding where_main format
named ref sha h = rw h refl

-- The place of the note in brackets.
cut_note :
    (inner tail : String)
    → lacks close inner ≡ true
    → split_once (inner +++ ("). First action: fetch upstream " +++ tail)) ")"
      ≡ some (inner, ". First action: fetch upstream " +++ tail)
cut_note inner tail h =
    rw (append_assoc ")" ". First action: fetch upstream " tail)
      (split_once-append close "" inner (". First action: fetch upstream " +++ tail) h)

sha_of :
    (ref sha : String)
    → lacks space ref ≡ true
    → is_empty (trim sha) ≡ false
    → inside (some (ref +++ (" @ " +++ (sha +++ "")), "")) ≡ some (trim sha)
unfolding inside sha_in
sha_of ref sha h filled =
    rw (inside, split_once-append space "@ " ref (sha +++ "") h, append-nil sha, filled) refl

lacks_named :
    (ref sha : String)
    → lacks close ref ≡ true
    → lacks close sha ≡ true
    → lacks close (ref +++ (" @ " +++ (sha +++ ""))) ≡ true
unfolding lacks
lacks_named ref sha in_ref in_sha =
    let outer = append-lacks close ref (" @ " +++ (sha +++ "")) in
    let inner = append-lacks close " @ " (sha +++ "") in let last = append-nil sha in ground arith

read_note :
    (inner tail : String)
    → lacks close inner ≡ true
    → parse_main_advanced_steer_commit_sha
        ("Main advanced (" +++ (inner +++ ("). First action: fetch upstream " +++ tail)))
      ≡ inside (some (inner, ""))
unfolding parse_main_advanced_steer_commit_sha inside
read_note inner tail h =
    let opened =
      strip_prefix-append "Main advanced ("
        (inner +++ ("). First action: fetch upstream " +++ tail)) in
    rw (parse_main_advanced_steer_commit_sha, opened, cut_note inner tail h) refl

filled_text : (s : String) → is_empty (trim s) ≡ false → is_empty s ≡ false
unfolding trim
filled_text String.[] h = h
filled_text (String.◌∷◌ c s) h = refl

module _ (ref sha base : String) (ref_open : lacks close ref ≡ true)
    (ref_word : lacks space ref ≡ true) (sha_open : lacks close sha ≡ true)
    (filled : is_empty (trim sha) ≡ false) where
  -- The commit is read back from the note that a notice writes, for a ref without spaces and brackets
  -- and a commit that is not blank and has no bracket.
  pub parse-main_advanced_steer_note :
      parse_main_advanced_steer_commit_sha (main_advanced_steer_note ref (some sha) base)
      ≡ some (trim sha)
  unfolding parse_main_advanced_steer_commit_sha main_advanced_steer_note format
  parse-main_advanced_steer_note = rw (named ref sha (filled_text sha filled)) (
      read_note (ref +++ (" @ " +++ (sha +++ ""))) _ (lacks_named ref sha ref_open sha_open)
      ∙ sha_of ref sha ref_word filled)

newest_first :
    (notes : List Note) (n : Note) (out : List Note)
    → reversed (notes ++ n ∷ []) out ≡ n ∷ reversed notes out
unfolding reversed
newest_first [] n out = refl
newest_first (m ∷ rest) n out = newest_first rest n (m ∷ out)

is_note :
    (ref : String) (sha : Option String) (base : String)
    → is_main_advanced_steer_note (main_advanced_steer_note ref sha base) ≡ true
unfolding is_main_advanced_steer_note main_advanced_steer_note format
is_note ref sha base = starts_with-append "Main advanced (" _

first_sha :
    (n : Note) (rest : List Note) (sha : String)
    → parse_main_advanced_steer_commit_sha n.text ≡ some sha
    → find_map (λ (m : Note). parse_main_advanced_steer_commit_sha m.text) (n ∷ rest) ≡ some sha
first_sha n rest sha found = rw (find_map, found) refl

last_sha :
    (notes : List Note) (n : Note) (sha : String)
    → is_main_advanced_steer_note n.text ≡ true
    → parse_main_advanced_steer_commit_sha n.text ≡ some sha
    → last_main_advanced_steer_commit_sha (notes ++ n ∷ []) ≡ some sha
unfolding last_main_advanced_steer_commit_sha
last_sha notes n sha told found = rw (newest_first notes n [], told) (first_sha n _ sha found)

opt_str_eq-same : (o : Option String) → opt_str_eq o o ≡ true
unfolding opt_str_eq
opt_str_eq-same none = refl
opt_str_eq-same (some s) = (eq_iff s s).1 refl

same_sha : (sha : Option String) → main_advanced_sha_unchanged sha sha ≡ true
unfolding main_advanced_sha_unchanged
same_sha sha = opt_str_eq-same (norm sha)

-- The step of a notice for one card: nothing is done where the card waits in the queue since a notice of
-- the commit that its last note names.
pub steer_card_again :
    (ref ref_again sha base base_again : String) (it : WorkItem) (old : List Note) (n : Note)
    (id : ItemId) (b : Board)
    → lacks close ref ≡ true
    → lacks space ref ≡ true
    → lacks close sha ≡ true
    → trim sha ≡ sha
    → is_empty sha ≡ false
    → n.text ≡ main_advanced_steer_note ref (some sha) base
    → it.notes ≡ old ++ n ∷ []
    → is_coalesced it ≡ true
    → steer_card ref_again (some sha) id it base_again b ≡ (ok false, b)
unfolding steer_card ◌>>=◌
steer_card_again ref ref_again sha base base_again it old n id b ref_open ref_word sha_open plain
      filled text last waits =
    let blank : is_empty (trim sha) ≡ false = rw plain filled in
    let read : parse_main_advanced_steer_commit_sha n.text ≡ some sha = rw text (
      parse-main_advanced_steer_note ref sha base ref_open ref_word sha_open blank
      ∙ ap some plain) in
    let note : is_main_advanced_steer_note n.text ≡ true = rw text (is_note ref (some sha) base) in
    rw (waits, last, last_sha old n sha note read, same_sha (some sha)) refl
