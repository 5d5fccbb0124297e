-- ===== src/Engine/Quoted.antt =====
-- src/engine.rs: what a shell makes of a quoted text.
use Prim.Native.Char.{Char}
use text.Mathlib.TextEquality.{Char-path}
use Prim.Native.String.append
use Prim.Native.String.{String, ◌++◌}
use sandboard.Prelude.{
  ◌≡◌, refl, sym, ◌∙◌, ap, Option, none, some, Bool, Bool-cases, inl, inr, arith, ◌||◌,
  if◌then◌else◌,
}
use sandboard.Prelude.Text.{char_eq}
use sandboard.Engine.{requote, shell_single_quote}

push : Char → Option (String × String) → Option (String × String)
push c none = none
push c (some (taken, rest)) = some (String.◌∷◌ c taken, rest)

-- Where the reader of a word stands: outside of quotes, in single or in double ones.
pub data Mode : Type 0 where
  plain single double : Mode

-- Characters that a shell reads in its own way, even between double quotes.
expands : Char → Bool
expands c = char_eq c "$" || char_eq c "`" || char_eq c "\\"

-- The next word of a command line by the rules of POSIX for quotes, and what follows it; none where a quote is
-- left open or where something is expanded. Outside of quotes, a character that is not a quote ends the word.
unfoldable pub word : Mode → String → Option (String × String)
unfolding push expands
word Mode.plain String.[] = some ("", "")
word Mode.plain (String.◌∷◌ c s) =
    let single = word Mode.single s in
    let double = word Mode.double s in
    if char_eq c "'" then single else if char_eq c "\"" then double else some ("", String.◌∷◌ c s)
word Mode.single String.[] = none
word Mode.single (String.◌∷◌ c s) =
    let closed = word Mode.plain s in
    let inside = push c (word Mode.single s) in if char_eq c "'" then closed else inside
word Mode.double String.[] = none
word Mode.double (String.◌∷◌ c s) =
    let closed = word Mode.plain s in
    let inside = push c (word Mode.double s) in
    if char_eq c "\"" then closed else if expands c then none else inside

-- The text in front of what was read.
prepend : String → Option (String × String) → Option (String × String)
unfolding push
prepend String.[] o = o
prepend (String.◌∷◌ c s) o = push c (prepend s o)

word-requote :
    (s tail : String)
    → word Mode.single (requote s (String.◌∷◌ "'" tail)) ≡ prepend s (word Mode.plain tail)
unfolding word requote prepend
word-requote String.[] tail = refl
word-requote (String.◌∷◌ c s) tail = elim (Bool-cases (char_eq c "'")) [
  | inl quote ↦
      let same : c ≡ "'" = Char-path c "'" (ground arith) in
      rw quote (
        ap (push "'") (word-requote s tail)
        ∙ ap (λ d. push d (prepend s (word Mode.plain tail))) (sym same))
  | inr other ↦ rw (other, other) (ap (push c) (word-requote s tail))
]

prepend_whole : (s rest : String) → prepend s (some ("", rest)) ≡ some (s, rest)
unfolding prepend push
prepend_whole String.[] rest = refl
prepend_whole (String.◌∷◌ c s) rest = ap (push c) (prepend_whole s rest)

requote-append : (s t u : String) → requote s t ++ u ≡ requote s (t ++ u)
unfolding requote
requote-append String.[] t u = refl
requote-append (String.◌∷◌ c s) t u = elim (Bool-cases (char_eq c "'")) [
  | inl quote ↦
      let rest = requote s t in
      let one = String.◌∷◌ "'" rest in
      let two = String.◌∷◌ "\"" one in
      let three = String.◌∷◌ "'" two in
      let four = String.◌∷◌ "\"" three in
      rw quote (
        rw
          (
            append.cons "'" four u,
            append.cons "\"" three u,
            append.cons "'" two u,
            append.cons "\"" one u,
            append.cons "'" rest u,
            requote-append s t u,
          )
          refl)
  | inr other ↦ rw other (rw (append.cons c (requote s t) u, requote-append s t u) refl)
]

-- A shell reads a quoted text, with a blank behind it, as one word, which is that text: whatever quotes,
-- blanks and other signs the text has.
pub word-shell_single_quote :
    (s rest : String)
    → word Mode.plain (shell_single_quote s ++ String.◌∷◌ " " rest) ≡ some (s, String.◌∷◌ " " rest)
unfolding shell_single_quote word
word-shell_single_quote s rest =
    let blank = String.◌∷◌ " " rest in
    let tail : "'" ++ blank ≡ String.◌∷◌ "'" blank =
      append.cons "'" "" blank ∙ ap (λ t. String.◌∷◌ "'" t) (append.nil blank) in
    let whole : shell_single_quote s ++ blank ≡ String.◌∷◌ "'" (requote s (String.◌∷◌ "'" blank)) =
      append.cons "'" (requote s "'") blank
      ∙ ap (λ t. String.◌∷◌ "'" t) (requote-append s "'" blank ∙ ap (requote s) tail) in
    ap (word Mode.plain) whole ∙ (word-requote s blank ∙ prepend_whole s blank)
