-- ===== src/Prelude/Text/Pieces.antt =====
-- Texts put together and taken apart again.
use Prim.Native.Char.{Char, code}
use Prim.Native.String.append
use Prim.Native.String.{String, ◌++◌}
use mathlib.Core.Path.{◌≡◌, refl, sym, ◌∙◌, ap}
use mathlib.Core.Bool.{Bool, true, false, ◌&&◌, not}
use mathlib.Core.Option.{none, some}
use native.Mathlib.Omega.{arith}
use sandboard.Prelude.Tests.{◌==◌, ==_self}
use sandboard.Prelude.Text.{strip_prefix}
use sandboard.Prelude.Text.Parse.{split_once, push_front}

-- No character of the text is `d`.
unfoldable pub lacks : Char → String → Bool
lacks d String.[] = true
lacks d (String.◌∷◌ c s) = not (code c == code d) && lacks d s

pub append-lacks : (d : Char) (s t : String) → lacks d (s ++ t) ≡ (lacks d s && lacks d t)
unfolding lacks
append-lacks d String.[] t = rw (append.nil t) refl
append-lacks d (String.◌∷◌ c s) t =
    let ih = append-lacks d s t in rw (append.cons c s t) (ground arith)

pub strip_prefix-append : (p x : String) → strip_prefix (p ++ x) p ≡ some x
unfolding strip_prefix
strip_prefix-append String.[] x = rw (append.nil x) refl
strip_prefix-append (String.◌∷◌ c p) x =
    rw (append.cons c p x, strip_prefix-append p x, ==_self (code c)) refl

here :
    (d : Char) (sep rest : String)
    → strip_prefix (String.◌∷◌ d (sep ++ rest)) (String.◌∷◌ d sep) ≡ some rest
here d sep rest =
    ap (λ t. strip_prefix t (String.◌∷◌ d sep)) (sym (append.cons d sep rest))
    ∙ strip_prefix-append (String.◌∷◌ d sep) rest

elsewhere :
    (c d : Char) (s sep : String)
    → (code c == code d) ≡ false
    → strip_prefix (String.◌∷◌ c s) (String.◌∷◌ d sep) ≡ none
unfolding strip_prefix
elsewhere c d s sep h = rw (strip_prefix, h) refl

-- The first separator is the one that was put in, if its first character is not in the text before.
pub split_once-append :
    (d : Char) (sep a rest : String)
    → lacks d a ≡ true
    → split_once (a ++ (String.◌∷◌ d sep ++ rest)) (String.◌∷◌ d sep) ≡ some (a, rest)
unfolding split_once lacks push_front
split_once-append d sep String.[] rest h =
    rw (append.nil (String.◌∷◌ d sep ++ rest), append.cons d sep rest, split_once, here d sep rest)
      refl
split_once-append d sep (String.◌∷◌ c a) rest h =
    let apart : (code c == code d) ≡ false = ground arith in
    let later : lacks d a ≡ true = ground arith in
    rw
      (
        append.cons c a (String.◌∷◌ d sep ++ rest),
        split_once,
        elsewhere c d (a ++ (String.◌∷◌ d sep ++ rest)) sep apart,
        split_once-append d sep a rest later,
      )
      refl
