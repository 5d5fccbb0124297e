-- ===== src/Board/Core/Returns.antt =====
-- What an action returns, on whatever board, where it succeeds.
use sandboard.Prelude.{◌≡◌, ◌∙◌, sym, ap, refl}
use sandboard.Prelude.Result.{Result, ok, err}
use sandboard.Board.Core.{Board, Action, pure, lift, ◌>>=◌, continue, >>=_ok}

pub record Returns {E A : Type 0} (Q : A → Type 0) (m : Action E A) : Type 0 where
  pub value : (b : Board) (a : A) → (m b).0 ≡ ok a → Q a

module _ {E A : Type 0} where
  pub Returns-pure : {Q : A → Type 0} (a : A) → Q a → Returns {E = E} Q (pure a)
  unfolding pure
  Returns-pure a q = record { value = λ b x e. let same : a ≡ x = cc in rw (← same) q }

  pub Returns-lift :
      {Q : A → Type 0} (r : Result E A) → ((a : A) → r ≡ ok a → Q a) → Returns Q (lift r)
  unfolding lift
  Returns-lift r q = record { value = λ b x e. q x e }

module _ {E A B : Type 0} {R : A → Type 0} {Q : B → Type 0} where
  returned :
      (r : Result E A) (f : A → Action E B) (b : Board) (y : B)
      → ((a : A) → r ≡ ok a → R a)
      → ((a : A) → R a → Returns Q (f a))
      → (continue r f b).0 ≡ ok y
      → Q y
  returned (ok a) f b y h k e = (k a (h a refl)).value b y e
  returned (err x) f b y h k e = cc

  pub Returns-bind :
      (m : Action E A) (f : A → Action E B)
      → Returns R m
      → ((a : A) → R a → Returns Q (f a))
      → Returns Q (m >>= f)
  unfolding ◌>>=◌
  Returns-bind m f g k = record {
    value = λ b y e. returned (m b).0 f (m b).1 y (λ a. g.value b a) k e;
  }

module _ {E A B : Type 0} {Q : B → Type 0} where
  returned_last :
      (r : Result E A) (f : A → Action E B) (b : Board) (y : B)
      → ((a : A) → Returns Q (f a))
      → (continue r f b).0 ≡ ok y
      → Q y
  returned_last (ok a) f b y k e = (k a).value b y e
  returned_last (err x) f b y k e = cc

  -- Only what comes last matters.
  pub Returns-last :
      (m : Action E A) (f : A → Action E B) → ((a : A) → Returns Q (f a)) → Returns Q (m >>= f)
  unfolding ◌>>=◌
  Returns-last m f k = record { value = λ b y e. returned_last (m b).0 f (m b).1 y k e }

-- The same from a board on which the outcome of the first action is known.
pub Returns-after :
    {E A B : Type 0} {Q : B → Type 0} (m : Action E A) (f : A → Action E B) (b after : Board)
    (a : A) (y : B)
    → m b ≡ (ok a, after)
    → Returns Q (f a)
    → ((m >>= f) b).0 ≡ ok y
    → Q y
unfolding ◌>>=◌
Returns-after m f b after a y first rest e =
    rest.value after y (sym (ap (λ r. r.0) (>>=_ok m f b after a first)) ∙ e)
