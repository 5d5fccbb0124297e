-- ===== src/Socket/Frame/Bytes.antt =====
-- Big-endian numbers and exact reads.
use native.Mathlib.Nat.{pow-suc}
use sandboard.Prelude.{
  ℕ, zero, suc, ◌+◌, ◌*◌, ◌%◌, ◌/◌, ◌^◌, ◌<◌, ◌≡◌, refl, Option, none, some, List, [], ◌∷◌, ◌++◌,
  length, length-append, arith,
}

-- `to_be_bytes` of a number of `k` bytes
unfoldable pub be_bytes : ℕ → ℕ → List ℕ
be_bytes zero n = []
be_bytes (suc k) n = be_bytes k (n / 256) ++ (n % 256) ∷ []

-- `from_be_bytes`, from the number that the bytes before stand for
unfoldable pub from_be : ℕ → List ℕ → ℕ
from_be high [] = high
from_be high (b ∷ rest) = from_be (high * 256 + b) rest

push : ℕ → Option (List ℕ × List ℕ) → Option (List ℕ × List ℕ)
push b none = none
push b (some (taken, rest)) = some (b ∷ taken, rest)

-- The next `n` bytes and those after them, or none where there are fewer.
unfoldable pub read_exact : ℕ → List ℕ → Option (List ℕ × List ℕ)
unfolding push
read_exact zero bytes = some ([], bytes)
read_exact (suc n) [] = none
read_exact (suc n) (b ∷ bytes) = push b (read_exact n bytes)

pub read_exact-append :
    (taken rest : List ℕ) → read_exact (length taken) (taken ++ rest) ≡ some (taken, rest)
unfolding read_exact
read_exact-append [] rest = refl
read_exact-append (b ∷ taken) rest = rw (read_exact-append taken rest) refl

pub length-be_bytes : (k n : ℕ) → length (be_bytes k n) ≡ k
unfolding be_bytes
length-be_bytes zero n = refl
length-be_bytes (suc k) n =
    omega
      (arith, length-append (be_bytes k (n / 256)) ((n % 256) ∷ []), length-be_bytes k (n / 256))

from_be-append :
    (high b : ℕ) (bytes : List ℕ) → from_be high (bytes ++ b ∷ []) ≡ from_be high bytes * 256 + b
unfolding from_be
from_be-append high b [] = refl
from_be-append high b (c ∷ bytes) = from_be-append (high * 256 + c) b bytes

pub from_be-be_bytes : (k n : ℕ) → n < 256 ^ k → from_be 0 (be_bytes k n) ≡ n
unfolding be_bytes from_be
from_be-be_bytes zero n small = omega arith
from_be-be_bytes (suc k) n small =
    let step : 256 ^ suc k ≡ 256 ^ k * 256 = pow-suc 256 k in
    let ih = from_be-be_bytes k (n / 256) (omega (arith, step)) in
    let last = from_be-append 0 (n % 256) (be_bytes k (n / 256)) in omega (arith, last, ih)
