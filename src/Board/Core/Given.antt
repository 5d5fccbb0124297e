-- ===== src/Board/Core/Given.antt =====
-- Invariants of actions that start from a fact: what an earlier action of the same method has left.
use sandboard.Prelude.{◌≡◌, ◌∙◌, sym, ap, refl, Bool, true, false, if◌then◌else◌}
use sandboard.Prelude.Result.{Result, ok, err}
use sandboard.Board.Core.{Board, Action, >>=_ok, ◌>>=◌, map_error, continue, convert}
use sandboard.Board.Core.Keeps.{Keeps}

-- Where the action succeeds, the fact `Q` holds after it.
pub record Gives {E A : Type 0} (Q : Board → Type 0) (m : Action E A) : Type 0 where
  pub after : (b : Board) (a : A) → (m b).0 ≡ ok a → Q (m b).1

-- From a board with the fact `Q` the action keeps `P`.
pub record From {E A : Type 0} (Q P : Board → Type 0) (m : Action E A) : Type 0 where
  pub at : (b : Board) → Q b → P b → P (m b).1

module _ {E A B : Type 0} {Q : Board → Type 0} where
  gives_rest :
      (r : Result E A) (f : A → Action E B) (b : Board) (y : B)
      → ((a : A) → r ≡ ok a → Q b)
      → ((a : A) → Keeps Q (f a))
      → (continue r f b).0 ≡ ok y
      → Q (continue r f b).1
  gives_rest (ok a) f b y h k e = (k a).at b (h a refl)
  gives_rest (err x) f b y h k e = cc

  pub Gives-bind :
      (m : Action E A) (f : A → Action E B)
      → Gives Q m
      → ((a : A) → Keeps Q (f a))
      → Gives Q (m >>= f)
  unfolding ◌>>=◌
  Gives-bind m f g k = record {
    after = λ b y e. gives_rest (m b).0 f (m b).1 y (λ a. g.after b a) k e;
  }

  -- The fact may come from the second action, too.
  gives_last :
      (r : Result E A) (f : A → Action E B) (b : Board) (y : B)
      → ((a : A) → Gives Q (f a))
      → (continue r f b).0 ≡ ok y
      → Q (continue r f b).1
  gives_last (ok a) f b y g e = (g a).after b y e
  gives_last (err x) f b y g e = cc

  pub Gives-bind_last :
      (m : Action E A) (f : A → Action E B) → ((a : A) → Gives Q (f a)) → Gives Q (m >>= f)
  unfolding ◌>>=◌
  Gives-bind_last m f g = record { after = λ b y e. gives_last (m b).0 f (m b).1 y g e }

module _ {E F A : Type 0} where
  given_ok : (f : E → F) (r : Result E A) (a : A) → convert f r ≡ ok a → r ≡ ok a
  given_ok f (ok x) a e = cc
  given_ok f (err x) a e = cc

module _ {E F A : Type 0} {Q : Board → Type 0} where
  pub Gives-map_error : (f : E → F) (m : Action E A) → Gives Q m → Gives Q (map_error f m)
  unfolding map_error
  Gives-map_error f m g = record { after = λ b a e. g.after b a (given_ok f (m b).0 a e) }

module _ {E A B : Type 0} {P : Board → Type 0} where
  from_rest :
      (r : Result E A) (f : A → Action E B) (b : Board)
      → ((a : A) → Keeps P (f a))
      → P b
      → P (continue r f b).1
  from_rest (ok a) f b k h = (k a).at b h
  from_rest (err x) f b k h = h

module _ {E A B : Type 0} {Q P : Board → Type 0} where
  -- `m` gives the fact from which the rest of the method starts.
  given_rest :
      (r : Result E A) (f : A → Action E B) (b : Board)
      → ((a : A) → r ≡ ok a → Q b)
      → ((a : A) → From Q P (f a))
      → P b
      → P (continue r f b).1
  given_rest (ok a) f b g k h = (k a).at b (g a refl) h
  given_rest (err x) f b g k h = h

  pub Keeps-bind_given :
      (m : Action E A) (f : A → Action E B)
      → Keeps P m
      → Gives Q m
      → ((a : A) → From Q P (f a))
      → Keeps P (m >>= f)
  unfolding ◌>>=◌
  Keeps-bind_given m f km gm k = record {
    at = λ b h. given_rest (m b).0 f (m b).1 (λ a. gm.after b a) k (km.at b h);
  }

  -- The fact is needed for the first action only.
  pub From-bind :
      (m : Action E A) (f : A → Action E B)
      → From Q P m
      → ((a : A) → Keeps P (f a))
      → From Q P (m >>= f)
  unfolding ◌>>=◌
  From-bind m f fm k = record { at = λ b q h. from_rest (m b).0 f (m b).1 k (fm.at b q h) }

  from_later :
      (r : Result E A) (f : A → Action E B) (b : Board)
      → ((a : A) → From Q P (f a))
      → Q b
      → P b
      → P (continue r f b).1
  from_later (ok a) f b k q h = (k a).at b q h
  from_later (err x) f b k q h = h

  -- The fact is needed later, and the first action keeps it.
  pub From-bind_later :
      (m : Action E A) (f : A → Action E B)
      → Keeps P m
      → Keeps Q m
      → ((a : A) → From Q P (f a))
      → From Q P (m >>= f)
  unfolding ◌>>=◌
  From-bind_later m f kp kq k = record {
    at = λ b q h. from_later (m b).0 f (m b).1 k (kq.at b q) (kp.at b h);
  }

module _ {E A : Type 0} {Q P : Board → Type 0} where
  pub From-Keeps : (m : Action E A) → Keeps P m → From Q P m
  From-Keeps m k = record { at = λ b q h. k.at b h }

  pub From-if :
      (t : Bool) (m n : Action E A) → From Q P m → From Q P n → From Q P (if t then m else n)
  From-if true m n fm fn = fm
  From-if false m n fm fn = fn

module _ {E A B : Type 0} {Q : Board → Type 0} where
  -- The same from a board on which the outcome of the first action is known.
  pub Gives-after :
      (m : Action E A) (f : A → Action E B) (b after : Board) (a : A) (y : B)
      → m b ≡ (ok a, after)
      → Gives Q (f a)
      → ((m >>= f) b).0 ≡ ok y
      → Q ((m >>= f) b).1
  Gives-after m f b after a y first rest e =
      let whole = >>=_ok m f b after a first in
      rw whole (rest.after after y (sym (ap (λ r. r.0) whole) ∙ e))
