-- ===== src/Prelude/Text.antt =====
-- The parts of `str` and `String` that the program uses, over the native strings.
pub mod Parse
pub mod Blank
pub mod Pieces
use Prim.Native.Nat.{ℕ, zero, suc, ◌/◌, ◌%◌}
use Prim.Native.Char.{Char, code}
use Prim.Native.String.{String, ◌++◌}
pub use text.Mathlib.Text.{◌==◌ as str_eq, starts_with, find?}
use mathlib.Core.Path.{◌≡◌, refl}
use mathlib.Core.Bool.{Bool, true, false, ◌||◌, ◌&&◌}
use mathlib.Core.List.{List, [], ◌∷◌}
use mathlib.Core.Option.{Option, none, some}
use sandboard.Prelude.Tests.{ltb, leb, ◌==◌, if◌then◌else◌, is_some}

-- `format!`: the pieces, one after the other.
unfoldable pub format : List String → String
format [] = ""
format (s ∷ rest) = s ++ format rest

abbrev pub is_empty : String → Bool
is_empty String.[] = true
is_empty (String.◌∷◌ c s) = false

-- `char::is_whitespace`: the code points with the Unicode property White_Space.
unfoldable pub is_whitespace : Char → Bool
is_whitespace c =
    let n = code c in
    leb 9 n && leb n 13
    || n == 32
    || n == 133
    || n == 160
    || n == 5760
    || leb 8192 n && leb n 8202
    || n == 8232
    || n == 8233
    || n == 8239
    || n == 8287
    || n == 12288

unfoldable pub trim_start : String → String
unfolding is_whitespace
trim_start String.[] = ""
trim_start (String.◌∷◌ c s) =
    let rest = trim_start s in if is_whitespace c then rest else String.◌∷◌ c s

unfoldable pub trim_end : String → String
unfolding is_whitespace
trim_end String.[] = ""
trim_end (String.◌∷◌ c s) =
    let rest = trim_end s in if is_whitespace c && is_empty rest then "" else String.◌∷◌ c rest

-- `str::trim`
unfoldable pub trim : String → String
unfolding trim_start trim_end
trim s = trim_start (trim_end s)

digit : ℕ → String
digit zero = "0"
digit (suc zero) = "1"
digit (suc (suc zero)) = "2"
digit (suc (suc (suc zero))) = "3"
digit (suc (suc (suc (suc zero)))) = "4"
digit (suc (suc (suc (suc (suc zero))))) = "5"
digit (suc (suc (suc (suc (suc (suc zero)))))) = "6"
digit (suc (suc (suc (suc (suc (suc (suc zero))))))) = "7"
digit (suc (suc (suc (suc (suc (suc (suc (suc zero)))))))) = "8"
digit _ = "9"

-- A number has at most as many digits as its value, plus one: the fuel never runs out.
digits_from : ℕ → ℕ → String
unfolding digit
digits_from zero n = ""
digits_from (suc fuel) n =
    let front = digits_from fuel (n / 10) in if ltb n 10 then digit n else front ++ digit (n % 10)

-- `Display` of an unsigned integer.
unfoldable pub show_ℕ : ℕ → String
unfolding digits_from
show_ℕ n = digits_from (suc n) n

-- `str::contains`
unfoldable pub contains : String → String → Bool
contains s t = is_some (find? s t)

-- `Option<String>` compared by the derived `==`.
unfoldable pub opt_str_eq : Option String → Option String → Bool
opt_str_eq none none = true
opt_str_eq (some a) (some b) = str_eq a b
opt_str_eq _ _ = false

-- `Debug` of a list of numbers.
show_rest : List ℕ → String
unfolding show_ℕ
show_rest [] = "]"
show_rest (n ∷ rest) = ", " ++ (show_ℕ n ++ show_rest rest)

unfoldable pub show_list : List ℕ → String
unfolding show_rest
show_list [] = "[]"
show_list (n ∷ rest) = "[" ++ (show_ℕ n ++ show_rest rest)

abbrev pub char_eq : Char → Char → Bool
char_eq c d = code c == code d

-- `str::strip_prefix`
unfoldable pub strip_prefix : String → String → Option String
strip_prefix s String.[] = some s
strip_prefix String.[] (String.◌∷◌ c t) = none
strip_prefix (String.◌∷◌ d s) (String.◌∷◌ c t) =
    let rest = strip_prefix s t in if char_eq d c then rest else none

abbrev with_front : Char → Option String → Option String
with_front c none = none
with_front c (some s) = some (String.◌∷◌ c s)

-- `str::strip_suffix`
unfoldable pub strip_suffix : String → String → Option String
strip_suffix String.[] t = if is_empty t then some "" else none
strip_suffix (String.◌∷◌ c s) t =
    let rest = strip_suffix s t in if str_eq (String.◌∷◌ c s) t then some "" else with_front c rest

abbrev onto_first : Char → List String → List String
onto_first c [] = String.◌∷◌ c "" ∷ []
onto_first c (s ∷ rest) = String.◌∷◌ c s ∷ rest

-- `str::split` by a test on characters.
unfoldable pub split : (Char → Bool) → String → List String
split test String.[] = "" ∷ []
split test (String.◌∷◌ c s) =
    let rest = split test s in if test c then "" ∷ rest else onto_first c rest

non_empty : List String → List String
non_empty [] = []
non_empty (s ∷ rest) = let later = non_empty rest in if is_empty s then later else s ∷ later

-- `str::split_whitespace`
unfoldable pub split_whitespace : String → List String
unfolding split non_empty is_whitespace
split_whitespace s = non_empty (split is_whitespace s)

without_return : String → String
unfolding strip_suffix
without_return s = elim (strip_suffix s "\r") [ none ↦ s | some line ↦ line ]

-- The piece after the last line break is no line if it is empty.
lines_of : List String → List String
unfolding without_return
lines_of [] = []
lines_of (s ∷ []) = if is_empty s then [] else without_return s ∷ []
lines_of (s ∷ t ∷ rest) = without_return s ∷ lines_of (t ∷ rest)

-- `str::lines`
unfoldable pub lines : String → List String
unfolding split lines_of
lines s = lines_of (split (λ c. code c == 10) s)

-- `join(separator)`
unfoldable pub join : String → List String → String
join separator [] = ""
join separator (s ∷ []) = s
join separator (s ∷ t ∷ rest) = s ++ (separator ++ join separator (t ∷ rest))

lower : Char → String
lower c = elim (find? "ABCDEFGHIJKLMNOPQRSTUVWXYZ" (String.◌∷◌ c "")) [
  | none ↦ String.◌∷◌ c ""
  | some i ↦ Prim.Native.String.slice "abcdefghijklmnopqrstuvwxyz" i (suc i)
]

-- `str::to_lowercase`, for the letters of ASCII; any other character is left as it is.
unfoldable pub to_lowercase : String → String
unfolding lower
to_lowercase String.[] = ""
to_lowercase (String.◌∷◌ c s) = lower c ++ to_lowercase s

lowered : to_lowercase "Fix THE Ring" ≡ "fix the ring"
unfolding to_lowercase
lowered = refl

numbered : show_ℕ 4107 ≡ "4107"
unfolding show_ℕ
numbered = refl

trimmed : trim " \n a b \t" ≡ "a b"
unfolding trim
trimmed = refl

two_lines : lines "a\r\nb\n" ≡ "a" ∷ "b" ∷ []
unfolding lines
two_lines = refl
