-- ===== src/Prelude/Text/Blank.antt =====
-- Texts of white space only: what `trim` leaves nothing of.
use Prim.Native.String.append
use Prim.Native.String.{String, ◌++◌}
use mathlib.Core.Path.{◌≡◌, refl, ◌∙◌}
use mathlib.Core.Bool.{Bool, true, ◌&&◌}
use native.Mathlib.Omega.{arith}
use sandboard.Prelude.Text.{is_empty, is_whitespace, trim, trim_start, trim_end}

unfoldable pub is_blank : String → Bool
is_blank String.[] = true
is_blank (String.◌∷◌ c s) = is_whitespace c && is_blank s

start_blank : (s : String) → is_empty (trim_start s) ≡ is_blank s
unfolding trim_start is_blank
start_blank String.[] = refl
start_blank (String.◌∷◌ c s) = let ih = start_blank s in ground arith

start-is_blank : (s : String) → is_blank (trim_start s) ≡ is_blank s
unfolding trim_start is_blank
start-is_blank String.[] = refl
start-is_blank (String.◌∷◌ c s) = let ih = start-is_blank s in ground arith

empty-is_blank : (s : String) → is_empty s ≡ true → is_blank s ≡ true
unfolding is_blank
empty-is_blank String.[] h = refl
empty-is_blank (String.◌∷◌ c s) h = cc

end_blank : (s : String) → is_blank (trim_end s) ≡ is_blank s
unfolding trim_end is_blank
end_blank String.[] = refl
end_blank (String.◌∷◌ c s) =
    let ih = end_blank s in let none_left = empty-is_blank (trim_end s) in ground arith

-- What `trim` leaves is empty just where the text is blank.
pub trim_blank : (s : String) → is_empty (trim s) ≡ is_blank s
unfolding trim
trim_blank s = start_blank (trim_end s) ∙ end_blank s

pub append-is_blank : (s t : String) → is_blank (s ++ t) ≡ (is_blank s && is_blank t)
unfolding is_blank
append-is_blank String.[] t = rw (append.nil t) refl
append-is_blank (String.◌∷◌ c s) t =
    let ih = append-is_blank s t in rw (append.cons c s t) (ground arith)

pub trim-is_blank : (s : String) → is_blank (trim s) ≡ is_blank s
unfolding trim
trim-is_blank s = start-is_blank (trim_end s) ∙ end_blank s
