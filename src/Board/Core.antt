-- ===== src/Board/Core.antt =====
-- src/store.rs: the struct `Board`, and its methods as actions: a method changes the board and
-- returns a result or an error. What was written before an error stays written.
-- `clock` is what `Utc::now` returns during the call; `sent` is all that went to the channel `tx`;
-- `deleted` holds the sandboxes whose deletion was spawned.
pub mod Keeps
pub mod Given
pub mod Returns
use sandboard.Prelude.{◌≡◌, refl, ℕ, String, List, [], Bool, true, false}
use sandboard.Prelude.Result.{Result, ok, err}
use sandboard.Map.{Map}
use sandboard.Schema.{Schema}
use sandboard.Model.Item.{ItemId}
use sandboard.Board.State.{BoardState, empty_state}
use sandboard.Board.Event.{BoardEvent}

pub record Board : Type 0 where
  pub state : BoardState
  pub live_agent_logs : Map ItemId (List String)
  pub sent : List BoardEvent
  pub seq : ℕ
  pub event_buffer : List BoardEvent
  pub buffer_capacity : ℕ
  pub dirty : Bool
  pub schema : Schema
  pub clock : ℕ
  pub deleted : List String

abbrev pub default_event_buffer_capacity : ℕ
default_event_buffer_capacity = 1000

-- `Board::new`, created at the time `now`
unfoldable pub new_board : Schema → ℕ → Board
unfolding empty_state
new_board schema now = record {
  state = empty_state;
  live_agent_logs = [];
  sent = [];
  seq = 0;
  event_buffer = [];
  buffer_capacity = default_event_buffer_capacity;
  dirty = false;
  schema = schema;
  clock = now;
  deleted = [];
}

abbrev pub Action : Type 0 → Type 0 → Type 0
Action E A = Board → Result E A × Board

module _ {E A : Type 0} where
  pub pure : A → Action E A
  pure a b = (ok a, b)

  pub raise : E → Action E A
  raise e b = (err e, b)

  -- A result that was computed without the board.
  pub lift : Result E A → Action E A
  lift r b = (r, b)

  pub gets : (Board → A) → Action E A
  gets f b = (ok (f b), b)

pub modify : {E : Type 0} → (Board → Board) → Action E Unit
modify f b = (ok tt, f b)

module _ {E A B : Type 0} where
  abbrev continue : Result E A → (A → Action E B) → Action E B
  continue (ok a) f b = f a b
  continue (err e) f b = (err e, b)

  infixl 5 ◌>>=◌ ◌>>◌
  unfoldable pub ◌>>=◌ : Action E A → (A → Action E B) → Action E B
  unfolding pure raise lift gets modify
  ◌>>=◌ m f b = let (r, b') = m b in continue r f b'

  abbrev pub ◌>>◌ : Action E A → Action E B → Action E B
  m >> n = m >>= λ _. n

module _ {E F A : Type 0} where
  abbrev convert : (E → F) → Result E A → Result F A
  convert f (ok a) = ok a
  convert f (err e) = err (f e)

  -- `.map_err(f)`
  unfoldable pub map_error : (E → F) → Action E A → Action F A
  map_error f m b = let (r, b') = m b in (convert f r, b')

  -- `let _ = …`: the call is made, and its result or error is dropped.
  unfoldable pub attempt : Action E A → Action F Unit
  attempt m b = let (r, b') = m b in (ok tt, b')

abbrev pub is_ok : {E A : Type 0} → Result E A → Bool
is_ok (ok a) = true
is_ok (err e) = false

-- `.is_ok()`: the call is made, and only its success is looked at.
unfoldable pub succeeds : {E F A : Type 0} → Action E A → Action F Bool
succeeds m b = let (r, b') = m b in (ok (is_ok r), b')

-- A chain of actions, once the outcome of its first one is known.
module _ {E A B : Type 0} (m : Action E A) (f : A → Action E B) (b after : Board) where
  pub >>=_ok : (a : A) → m b ≡ (ok a, after) → (m >>= f) b ≡ f a after
  unfolding ◌>>=◌
  >>=_ok a e = rw e refl

  pub >>=_err : (x : E) → m b ≡ (err x, after) → (m >>= f) b ≡ (err x, after)
  unfolding ◌>>=◌
  >>=_err x e = rw e refl
