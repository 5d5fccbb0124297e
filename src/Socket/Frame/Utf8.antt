-- ===== src/Socket/Frame/Utf8.antt =====
-- The texts in UTF-8, by the table of RFC 3629: what `String::from_utf8` accepts.
use sandboard.Prelude.{
  ℕ, zero, suc, List, [], ◌∷◌, Bool, true, false, ◌&&◌, Option, none, some, leb, ◌==◌,
  if◌then◌else◌,
}

within : ℕ → ℕ → ℕ → Bool
within low high b = leb low b && leb b high

-- What follows a first byte: how many bytes, and the range of the first of them.
follow : ℕ → Option (ℕ × ℕ × ℕ)
unfolding within
follow a =
    if leb a 0x7F
    then some (0, 0x80, 0xBF)
    else if within 0xC2 0xDF a
    then some (1, 0x80, 0xBF)
    else if a == 0xE0
    then some (2, 0xA0, 0xBF)
    else if a == 0xED
    then some (2, 0x80, 0x9F)
    else if within 0xE1 0xEF a
    then some (2, 0x80, 0xBF)
    else if a == 0xF0
    then some (3, 0x90, 0xBF)
    else if within 0xF1 0xF3 a
    then some (3, 0x80, 0xBF)
    else if a == 0xF4
    then some (3, 0x80, 0x8F)
    else none

scan : ℕ → ℕ → ℕ → List ℕ → Bool
unfolding within follow
scan zero low high [] = true
scan (suc more) low high [] = false
scan (suc more) low high (b ∷ rest) = within low high b && scan more 0x80 0xBF rest
scan zero _ _ (a ∷ rest) = elim (follow a) [
  | none ↦ false
  | some (more, low, high) ↦ scan more low high rest
]

unfoldable pub is_utf8 : List ℕ → Bool
unfolding scan
is_utf8 bytes = scan 0 0x80 0xBF bytes
