-- ===== src/Model/State.antt =====
-- src/model.rs: the lifecycle states of a card and the columns that show them.
use sandboard.Prelude.{ℕ, ◌≡◌, ◌↔◌, Bool, true, false, arith, ltb, ◌==◌}
use sandboard.Map.{Key}

pub data State : Type 0 where
  draft shaping backlog claimed running splitting needs_human review done retired : State

pub data Column : Type 0 where
  intake shaping backlog running needs_you review done retired : Column

unfoldable pub column : State → Column
column State.draft = Column.intake
column State.shaping = Column.shaping
column State.backlog = Column.backlog
column State.claimed = Column.running
column State.running = Column.running
column State.splitting = Column.running
column State.needs_human = Column.needs_you
column State.review = Column.review
column State.done = Column.done
column State.retired = Column.retired

unfoldable pub is_terminal : State → Bool
is_terminal State.done = true
is_terminal State.retired = true
is_terminal _ = false

-- The position of a state in the enum, by which the derived `==` tells states apart.
abbrev pub discriminant : State → ℕ
discriminant State.draft = 0
discriminant State.shaping = 1
discriminant State.backlog = 2
discriminant State.claimed = 3
discriminant State.running = 4
discriminant State.splitting = 5
discriminant State.needs_human = 6
discriminant State.review = 7
discriminant State.done = 8
discriminant State.retired = 9

abbrev pub state_eq : State → State → Bool
state_eq a b = discriminant a == discriminant b

pub state_eq_iff : (a b : State) → (state_eq a b ≡ true) ↔ (a ≡ b)
state_eq_iff State.draft b = ground arith
state_eq_iff State.shaping b = ground arith
state_eq_iff State.backlog b = ground arith
state_eq_iff State.claimed b = ground arith
state_eq_iff State.running b = ground arith
state_eq_iff State.splitting b = ground arith
state_eq_iff State.needs_human b = ground arith
state_eq_iff State.review b = ground arith
state_eq_iff State.done b = ground arith
state_eq_iff State.retired b = ground arith

instance abbrev pub state_key : Key State
state_key = record {
  beq = state_eq;
  before = λ a b. ltb (discriminant a) (discriminant b);
  beq_iff = state_eq_iff;
}
