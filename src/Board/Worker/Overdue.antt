-- ===== src/Board/Worker/Overdue.antt =====
-- src/store.rs: which runs `sweep_leases` finds overdue.
use sandboard.Prelude.{
  ℕ, ◌≡◌, ◌∙◌, ◌↔◌, ◌⊎◌, ◌<◌, ap, sym, refl, Option, none, some, List, [], ◌∷◌, ◌++◌, Bool, true,
  ◌&&◌, ◌||◌, arith, keep, ◌==◌, ==_iff, Bool-cases, Option-cases, inl, inr,
}
use sandboard.Map
use sandboard.Map.{nat_key}
use sandboard.Map.Index.{members}
use sandboard.Map.Set.{contains}
use sandboard.Model.State.{State, state_eq, state_key, state_eq_iff}
use sandboard.Model.Item.{ItemId, WorkItem, Lease, is_expired}
use sandboard.Board.State.Indexes.{state_is}
use sandboard.Board.Sound.{IsSound}
use sandboard.Board.Worker.{is_overdue, overdue_in}
use sandboard.Board.Core.{Board}

contains-keep :
    (test : ItemId → Bool) (ids : List ItemId) (c : ItemId)
    → contains (keep test ids) c ≡ (contains ids c && test c)
unfolding contains
contains-keep test [] c = refl
contains-keep test (x ∷ ids) c = elim (Bool-cases (x == c)) [
  | inl same ↦ let at : x ≡ c = (==_iff x c).0 same in ground (arith, at, contains-keep test ids c)
  | inr other ↦ ground (arith, other, contains-keep test ids c)
]

contains-append :
    (xs ys : List ItemId) (c : ItemId) → contains (xs ++ ys) c ≡ (contains xs c || contains ys c)
unfolding contains
contains-append [] ys c = refl
contains-append (x ∷ xs) ys c = ground (arith, contains-append xs ys c)

-- A run whose deadline has passed, or, where the card has none, whose lease has.
abbrev pub IsOverdue : ℕ → WorkItem → Type 0
IsOverdue now it =
    ((d : ℕ) × (it.run_deadline_at ≡ some d) × (d < now))
    ⊎ ((it.run_deadline_at ≡ none) × (l : Lease) × (it.lease ≡ some l) × (l.expires_at < now))

-- A card that a worker holds, and whose run is overdue.
abbrev pub IsLate : ℕ → WorkItem → Type 0
IsLate now it = ((it.state ≡ State.claimed) ⊎ (it.state ≡ State.running)) × IsOverdue now it

is_overdue_iff : (now : ℕ) (it : WorkItem) → (is_overdue now (some it) ≡ true) ↔ IsOverdue now it
unfolding is_overdue is_expired
is_overdue_iff now it = elim (Option-cases it.run_deadline_at) [
  | inl unset ↦ elim (Option-cases it.lease) [
    | inl free ↦ (λ h. absurd (ground (arith, h, unset, free)), λ h. ground (arith, h, unset, free))
    | inr (l, held) ↦ (
      λ h. inr (unset, l, held, ground (arith, h, unset, held)),
      λ h. elim h [
        | inl (d, set, late) ↦ absurd cc
        | inr (_, l', held', late) ↦ ground (arith, unset, held, held', late)
      ],
    )
  ]
  | inr (d, set) ↦ (
    λ h. inl (d, set, ground (arith, h, set)),
    λ h. elim h [
      | inl (d', set', late) ↦ ground (arith, set, set', late)
      | inr (unset, l, held, late) ↦ absurd cc
    ],
  )
]

contains-overdue_in :
    (b : Board) (st : State) (c : ItemId)
    → IsSound b.state
    → contains (overdue_in b st) c
      ≡ (state_is (Map.get b.state.items c) st && is_overdue b.clock (Map.get b.state.items c))
unfolding overdue_in
contains-overdue_in b st c h =
    contains-keep (λ id. is_overdue b.clock (Map.get b.state.items id))
      (members b.state.ids_by_state st) c
    ∙ ap (λ t. t && is_overdue b.clock (Map.get b.state.items c)) (h.indexed.states st c)

pub listed_card :
    (b : Board) (c : ItemId) (it : WorkItem)
    → IsSound b.state
    → Map.get b.state.items c ≡ some it
    → (contains (overdue_in b State.claimed ++ overdue_in b State.running) c ≡ true)
      ↔ IsLate b.clock it
listed_card b c it h found =
    let claimed = contains-overdue_in b State.claimed c h in
    let running = contains-overdue_in b State.running c h in
    let both = contains-append (overdue_in b State.claimed) (overdue_in b State.running) c in
    let late = is_overdue_iff b.clock it in
    let listed = both ∙ held claimed running ∙ ap (asked b.clock) found in
    (λ there. from_held it late (sym listed ∙ there), λ held. listed ∙ to_held it late held)
  where
    asked : ℕ → Option WorkItem → Bool
    asked now o =
        (state_is o State.claimed && is_overdue now o)
        || (state_is o State.running && is_overdue now o)

    held : {p q r s : Bool} → p ≡ q → r ≡ s → (p || r) ≡ (q || s)
    held e f = rw (e, f) refl

    from_held :
        {now : ℕ} (it : WorkItem)
        → (is_overdue now (some it) ≡ true) ↔ IsOverdue now it
        → asked now (some it) ≡ true
        → IsLate now it
    from_held {now = now} it late h =
        let over : is_overdue now (some it) ≡ true = ground (arith, h) in
        elim (Bool-cases (state_eq it.state State.claimed)) [
          | inl at ↦ (inl ((state_eq_iff it.state State.claimed).0 at), late.0 over)
          | inr other ↦
              let at : state_eq it.state State.running ≡ true = ground (arith, h, other) in
              (inr ((state_eq_iff it.state State.running).0 at), late.0 over)
        ]

    to_held :
        {now : ℕ} (it : WorkItem)
        → (is_overdue now (some it) ≡ true) ↔ IsOverdue now it
        → IsLate now it
        → asked now (some it) ≡ true
    to_held it late (at, over) =
        let yes = late.1 over in
        elim at [
          | inl claimed ↦
              let same = (state_eq_iff it.state State.claimed).1 claimed in
              ground (arith, same, yes)
          | inr running ↦
              let same = (state_eq_iff it.state State.running).1 running in
              ground (arith, same, yes)
        ]

-- An id under which a late card is on the board.
abbrev pub IsListed : Board → ItemId → Type 0
IsListed b x = (it : WorkItem) × (Map.get b.state.items x ≡ some it) × IsLate b.clock it

pub is_overdue-IsListed :
    (b : Board)
    → IsSound b.state
    → (x : ItemId)
    → (contains (overdue_in b State.claimed ++ overdue_in b State.running) x ≡ true) ↔ IsListed b x
is_overdue-IsListed b h x = (
  λ there. elim (Option-cases (Map.get b.state.items x)) [
    | inl gone ↦ absurd (out gone there)
    | inr (it, found) ↦ (it, found, (listed_card b x it h found).0 there)
  ],
  λ (it, found, late). (listed_card b x it h found).1 late,
)
  where
    out :
        Map.get b.state.items x ≡ none
        → contains (overdue_in b State.claimed ++ overdue_in b State.running) x ≡ true
        → ⊥
    out gone there =
        let claimed = contains-overdue_in b State.claimed x h in
        let running = contains-overdue_in b State.running x h in
        let both = contains-append (overdue_in b State.claimed) (overdue_in b State.running) x in
        ground (arith, gone, there, claimed, running, both)
