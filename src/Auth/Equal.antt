-- ===== src/Auth/Equal.antt =====
-- src/auth.rs: the comparison of two signatures, byte by byte and without an early end.
use Prim.Native.Nat.{bit_or, bit_xor, digits, differ, bit_or-bitwise, bit_xor-bitwise}
use sandboard.Prelude.{
  ℕ, zero, suc, ◌/◌, ◌%◌, ◌≤◌, ◌≡◌, refl, sym, ◌∙◌, ap, List, [], ◌∷◌, Bool, true, false, ◌==◌, max,
  length, arith, if◌then◌else◌, ◌↔◌, Bool-cases, inl, inr,
}

fold_diff : ℕ → List ℕ → List ℕ → ℕ
fold_diff acc (x ∷ a) (y ∷ b) = fold_diff (bit_or acc (bit_xor x y)) a b
fold_diff acc _ _ = acc

unfoldable pub constant_time_eq : List ℕ → List ℕ → Bool
unfolding fold_diff
constant_time_eq a b = if length a == length b then fold_diff 0 a b == 0 else false

differ_zero : (x y : ℕ) → differ x y ≡ 0 → x ≡ y
differ_zero zero y h = sym h
differ_zero (suc x) zero h = absurd (omega arith)
differ_zero (suc x) (suc y) h = ap suc (differ_zero x y h)

or_zero : (n a b : ℕ) → a ≤ n → digits (λ b. b) max n a b ≡ 0 → (a ≡ 0) × (b ≡ 0)
or_zero zero a b small h = (omega arith, h)
or_zero (suc n) zero b small h = (refl, h)
or_zero (suc n) (suc a) b small h =
    let high = or_zero n (suc a / 2) (b / 2) (omega arith) (omega arith) in
    absurd (omega (arith, high.0))

xor_zero : (n a b : ℕ) → a ≤ n → digits (λ b. b) differ n a b ≡ 0 → a ≡ b
xor_zero zero a b small h = omega (arith, h)
xor_zero (suc n) zero b small h = sym h
xor_zero (suc n) (suc a) b small h =
    let high = xor_zero n (suc a / 2) (b / 2) (omega arith) (omega arith) in
    let low = differ_zero (suc a % 2) (b % 2) (omega arith) in omega (arith, high, low)

fold_diff_zero :
    (acc : ℕ) (a b : List ℕ) → length a ≡ length b → fold_diff acc a b ≡ 0 → (acc ≡ 0) × (a ≡ b)
unfolding fold_diff
fold_diff_zero acc [] [] size h = (h, refl)
fold_diff_zero acc [] (y ∷ b) size h = absurd (omega arith)
fold_diff_zero acc (x ∷ a) [] size h = absurd (omega arith)
fold_diff_zero acc (x ∷ a) (y ∷ b) size h =
    let later = fold_diff_zero (bit_or acc (bit_xor x y)) a b (omega arith) h in
    let both =
      or_zero acc acc (bit_xor x y) (omega arith)
        (sym (λ i. bit_or-bitwise acc (bit_xor x y) i) ∙ later.0) in
    let same = xor_zero x x y (omega arith) (sym (λ i. bit_xor-bitwise x y i) ∙ both.1) in
    (both.0, ap (λ head. head ∷ a) same ∙ ap (λ rest. y ∷ rest) later.1)

differ_self : (x : ℕ) → differ x x ≡ 0
differ_self zero = refl
differ_self (suc x) = differ_self x

xor_self : (n a : ℕ) → a ≤ n → digits (λ b. b) differ n a a ≡ 0
xor_self zero a small = omega arith
xor_self (suc n) zero small = refl
xor_self (suc n) (suc a) small =
    omega (arith, xor_self n (suc a / 2) (omega arith), differ_self (suc a % 2))

fold_diff_self : (a : List ℕ) → fold_diff 0 a a ≡ 0
unfolding fold_diff
fold_diff_self [] = refl
fold_diff_self (x ∷ a) =
    let none_differ : bit_xor x x ≡ 0 = (λ i. bit_xor-bitwise x x i) ∙ xor_self x x (omega arith) in
    rw none_differ (fold_diff_self a)

-- The comparison tells whether two lists of bytes are the same.
pub constant_time_eq_iff : (a b : List ℕ) → (constant_time_eq a b ≡ true) ↔ (a ≡ b)
unfolding constant_time_eq
constant_time_eq_iff a b = (
  λ passed. elim (Bool-cases (length a == length b)) [
    | inl size ↦
        let size : length a ≡ length b = ground arith in
        let diff : fold_diff 0 a b ≡ 0 = ground arith in (fold_diff_zero 0 a b size diff).1
    | inr size ↦ absurd (ground arith)
  ],
  λ same. rw (← same, fold_diff_self a) (ground arith),
)
