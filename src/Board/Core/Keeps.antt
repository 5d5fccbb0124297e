-- ===== src/Board/Core/Keeps.antt =====
-- Invariants of actions: one rule for each way to build an action.
use sandboard.Prelude.{◌≡◌, refl, Bool, true, false, if◌then◌else◌}
use sandboard.Prelude.Result.{Result, ok, err}
use sandboard.Board.Core.{
  Board, Action, pure, raise, lift, gets, modify, ◌>>=◌, map_error, attempt, succeeds, continue,
}

-- The action keeps `P`, also where it fails.
pub record Keeps {E A : Type 0} (P : Board → Type 0) (m : Action E A) : Type 0 where
  pub at : (b : Board) → P b → P (m b).1

module _ {E A : Type 0} {P : Board → Type 0} where
  pub Keeps-pure : (a : A) → Keeps {E = E} P (pure a)
  unfolding pure
  Keeps-pure a = record { at = λ b h. h }

  pub Keeps-raise : (e : E) → Keeps {A = A} P (raise e)
  unfolding raise
  Keeps-raise e = record { at = λ b h. h }

  pub Keeps-lift : (r : Result E A) → Keeps P (lift r)
  unfolding lift
  Keeps-lift r = record { at = λ b h. h }

  pub Keeps-gets : (f : Board → A) → Keeps {E = E} P (gets f)
  unfolding gets
  Keeps-gets f = record { at = λ b h. h }

  pub Keeps-if :
      (c : Bool) (m n : Action E A)
      → (c ≡ true → Keeps P m)
      → (c ≡ false → Keeps P n)
      → Keeps P (if c then m else n)
  Keeps-if true m n km kn = km refl
  Keeps-if false m n km kn = kn refl

module _ {E : Type 0} {P : Board → Type 0} where
  pub Keeps-modify :
      (f : Board → Board) → ((b : Board) → P b → P (f b)) → Keeps {E = E} P (modify f)
  unfolding modify
  Keeps-modify f h = record { at = h }

module _ {E A B : Type 0} {P : Board → Type 0} where
  Keeps-continue :
      (r : Result E A) (f : A → Action E B) (b : Board)
      → ((a : A) → r ≡ ok a → Keeps P (f a))
      → P b
      → P (continue r f b).1
  Keeps-continue (ok a) f b kf h = (kf a refl).at b h
  Keeps-continue (err e) f b kf h = h

  pub Keeps-bind :
      (m : Action E A) (f : A → Action E B)
      → Keeps P m
      → ((a : A) → Keeps P (f a))
      → Keeps P (m >>= f)
  unfolding ◌>>=◌
  Keeps-bind m f km kf = record {
    at = λ b h. let (r, b') = m b in Keeps-continue r f b' (λ a _. kf a) (km.at b h);
  }

module _ {E F A : Type 0} {P : Board → Type 0} where
  pub Keeps-map_error : (f : E → F) (m : Action E A) → Keeps P m → Keeps P (map_error f m)
  unfolding map_error
  Keeps-map_error f m k = record { at = k.at }

  pub Keeps-attempt : (m : Action E A) → Keeps P m → Keeps {E = F} P (attempt m)
  unfolding attempt
  Keeps-attempt m k = record { at = k.at }

  pub Keeps-succeeds : (m : Action E A) → Keeps P m → Keeps {E = F} P (succeeds m)
  unfolding succeeds
  Keeps-succeeds m k = record { at = k.at }

pub ruleset keeps_rules = (
  Keeps-pure, Keeps-raise, Keeps-lift, Keeps-gets, Keeps-if, Keeps-bind, Keeps-map_error,
  Keeps-attempt, Keeps-succeeds,
)
