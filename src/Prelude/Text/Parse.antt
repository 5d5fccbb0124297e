-- ===== src/Prelude/Text/Parse.antt =====
-- Numbers and pieces read from a text.
use Prim.Native.Char.{Char, code}
use Prim.Native.Nat.{ℕ, zero, suc, ◌+◌, ◌*◌, ◌-◌}
use Prim.Native.String.{String, ◌++◌}
use mathlib.Core.Path.{◌≡◌, refl}
use mathlib.Core.Bool.{Bool, ◌&&◌}
use mathlib.Core.Option.{Option, none, some}
use sandboard.Prelude.Tests.{leb, ◌==◌, if◌then◌else◌}
use sandboard.Prelude.Int.{ℤ, pos, negsuc}
use sandboard.Prelude.Text.{is_empty, strip_prefix, find?}

digit_value : Char → Option ℕ
digit_value c = if leb b'0' (code c) && leb (code c) b'9' then some (code c - b'0') else none

digits_value : ℕ → String → Option ℕ
unfolding digit_value
digits_value n String.[] = some n
digits_value n (String.◌∷◌ c s) = elim (digit_value c) [
  | none ↦ none
  | some d ↦ digits_value (n * 10 + d) s
]

at_most : ℕ → Option ℕ → Option ℕ
at_most bound none = none
at_most bound (some n) = if leb n bound then some n else none

-- `parse` of an unsigned number that is at most `bound`, without a sign.
parse_digits : ℕ → String → Option ℕ
unfolding digits_value at_most
parse_digits bound s = if is_empty s then none else at_most bound (digits_value 0 s)

-- `parse::<u32>()` and the like: `bound` is the greatest value of the type.
unfoldable pub parse_unsigned : ℕ → String → Option ℕ
unfolding parse_digits
parse_unsigned bound s = elim (strip_prefix s "+") [
  | none ↦ parse_digits bound s
  | some digits ↦ parse_digits bound digits
]

negated : ℕ → ℤ
negated zero = pos 0
negated (suc n) = negsuc n

signed : (ℕ → ℤ) → Option ℕ → Option ℤ
signed f none = none
signed f (some n) = some (f n)

-- `parse::<i32>()`
unfoldable pub parse_i32 : String → Option ℤ
unfolding parse_digits parse_unsigned negated signed
parse_i32 s = elim (strip_prefix s "-") [
  | none ↦ signed pos (parse_unsigned 2147483647 s)
  | some digits ↦ signed negated (parse_digits 2147483648 digits)
]

unfoldable pub push_front : Char → Option (String × String) → Option (String × String)
push_front c none = none
push_front c (some (a, b)) = some (String.◌∷◌ c a, b)

-- `split_once(separator)`
unfoldable pub split_once : String → String → Option (String × String)
unfolding push_front
split_once String.[] separator = elim (strip_prefix "" separator) [
  | none ↦ none
  | some rest ↦ some ("", rest)
]
split_once (String.◌∷◌ c s) separator =
    let later = split_once s separator in
    elim (strip_prefix (String.◌∷◌ c s) separator) [
      | none ↦ push_front c later
      | some rest ↦ some ("", rest)
    ]

-- `chars().take_while(test).collect()`
unfoldable pub take_while : (Char → Bool) → String → String
take_while test String.[] = ""
take_while test (String.◌∷◌ c s) =
    let rest = take_while test s in if test c then String.◌∷◌ c rest else ""

-- `trim_start_matches(test)`
unfoldable pub trim_start_matches : (Char → Bool) → String → String
trim_start_matches test String.[] = ""
trim_start_matches test (String.◌∷◌ c s) =
    let rest = trim_start_matches test s in if test c then rest else String.◌∷◌ c s

-- `trim_end_matches(test)`
unfoldable pub trim_end_matches : (Char → Bool) → String → String
trim_end_matches test String.[] = ""
trim_end_matches test (String.◌∷◌ c s) =
    let rest = trim_end_matches test s in if test c && is_empty rest then "" else String.◌∷◌ c rest

upper : Char → String
upper c = elim (find? "abcdefghijklmnopqrstuvwxyz" (String.◌∷◌ c "")) [
  | none ↦ String.◌∷◌ c ""
  | some i ↦ Prim.Native.String.slice "ABCDEFGHIJKLMNOPQRSTUVWXYZ" i (suc i)
]

-- `str::to_ascii_uppercase`
unfoldable pub to_ascii_uppercase : String → String
unfolding upper
to_ascii_uppercase String.[] = ""
to_ascii_uppercase (String.◌∷◌ c s) = upper c ++ to_ascii_uppercase s

parsed : parse_i32 "-143" ≡ some (negsuc 142)
unfolding parse_i32 strip_prefix
parsed = refl

too_great : parse_unsigned 4294967295 "4294967296" ≡ none
unfolding parse_unsigned strip_prefix
too_great = refl

halves : split_once "main @ abc" " @ " ≡ some ("main", "abc")
unfolding split_once strip_prefix
halves = refl

trimmed_ends : trim_end_matches (λ c. code c == b'/') "a/b//" ≡ "a/b"
unfolding trim_end_matches
trimmed_ends = refl

raised : to_ascii_uppercase "Comment" ≡ "COMMENT"
unfolding to_ascii_uppercase
raised = refl
