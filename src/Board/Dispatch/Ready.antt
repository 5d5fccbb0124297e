-- ===== src/Board/Dispatch/Ready.antt =====
-- src/store.rs: what the lists of cards ask of a card, said of the cards on the board.
use sandboard.Prelude.{
  ◌≡◌, ◌≢◌, ◌↔◌, ◌⊎◌, refl, sym, ap, ◌∙◌, String, Option, none, some, List, [], ◌∷◌, true, false,
  not, arith, keep, is_empty, any, Bool-cases, Option-cases, inl, inr, eq_iff, All,
}
use sandboard.Prelude.Text.{str_eq}
use sandboard.Map
use sandboard.Map.{nat_key}
use sandboard.Model.State.{State, is_terminal}
use sandboard.Model.Item.{ItemId, WorkItem, level_is}
use sandboard.Board.State.{BoardState, is_open}
use sandboard.Board.Sound.{IsSound}
use sandboard.Board.Tree.{unresolved_blockers}
use sandboard.Board.Tree.Laws.{has_children-IsSound}
use sandboard.Board.Dispatch.{is_ready, serves}

-- A blocker that is on the board is done or retired.
abbrev pub IsResolved : BoardState → ItemId → Type 0
IsResolved s p = (q : WorkItem) → Map.get s.items p ≡ some q → is_terminal q.state ≡ true

-- A card that is no Project, whose children are all retired and whose blockers are all resolved.
pub record IsReady (s : BoardState) (it : WorkItem) : Type 0 where
  pub no_project : it.level ≢ some "Project"
  pub leaf :
      (c : ItemId) (child : WorkItem)
      → Map.get s.items c ≡ some child
      → child.parent ≡ some it.id
      → child.state ≡ State.retired
  pub unblocked : All (IsResolved s) it.blocked_by

some_text : {a b : String} → ◌≡◌ {A = Option String} (some a) (some b) → a ≡ b
some_text h = cc

level_is_iff :
    (level : Option String) (name : String) → (level_is level name ≡ true) ↔ (level ≡ some name)
unfolding level_is
level_is_iff none name = (λ h. absurd cc, λ h. absurd cc)
level_is_iff (some l) name =
    (λ h. ap some ((eq_iff l name).0 h), λ h. (eq_iff l name).1 (some_text h))

is_open_iff : (s : BoardState) (p : ItemId) → (is_open (Map.get s.items p) ≡ false) ↔ IsResolved s p
unfolding is_open
is_open_iff s p = elim (Option-cases (Map.get s.items p)) [
  | inl gone ↦ (λ h q there. absurd cc, λ h. rw gone refl)
  | inr (it, found) ↦ (
    λ h q there.
        let same : it ≡ q = some_card (sym found ∙ there) in
        let over : is_terminal it.state ≡ true = open_card it (sym (ap is_open found) ∙ h) in
        rw (← same) over,
    λ h. ap is_open found ∙ rw (h it found) refl,
  )
]
  where
    some_card : {a b : WorkItem} → ◌≡◌ {A = Option WorkItem} (some a) (some b) → a ≡ b
    some_card e = cc

    open_card : (it : WorkItem) → not (is_terminal it.state) ≡ false → is_terminal it.state ≡ true
    open_card it h = ground arith

unblocked_iff :
    (s : BoardState) (ids : List ItemId)
    → (is_empty (keep (λ p. is_open (Map.get s.items p)) ids) ≡ true) ↔ All (IsResolved s) ids
unblocked_iff s [] = (λ h. tt, λ h. refl)
unblocked_iff s (p ∷ ids) =
    let one = is_open_iff s p in
    let more = unblocked_iff s ids in
    elim (Bool-cases (is_open (Map.get s.items p))) [
      | inl waits ↦ (
        λ h. absurd (open_head waits h),
        λ h. let shut : is_open (Map.get s.items p) ≡ false = one.1 h.0 in absurd cc,
      )
      | inr shut ↦ (λ h. (one.0 shut, more.0 (rw_tail shut h)), λ h. rw shut (more.1 h.1))
    ]
  where
    open_head :
        is_open (Map.get s.items p) ≡ true
        → is_empty (keep (λ p. is_open (Map.get s.items p)) (p ∷ ids)) ≡ true
        → ⊥
    open_head waits h = ground (arith, waits, h)

    rw_tail :
        is_open (Map.get s.items p) ≡ false
        → is_empty (keep (λ p. is_open (Map.get s.items p)) (p ∷ ids)) ≡ true
        → is_empty (keep (λ p. is_open (Map.get s.items p)) ids) ≡ true
    rw_tail shut h = ground (arith, shut, h)

-- The test of the lists is met by the cards that are ready, and by no others.
pub is_ready_iff :
    (s : BoardState) (it : WorkItem) → IsSound s → (is_ready s it ≡ true) ↔ IsReady s it
unfolding is_ready unresolved_blockers
is_ready_iff s it h =
    let level = level_is_iff it.level "Project" in
    let children = has_children-IsSound s it.id h in
    let blockers = unblocked_iff s it.blocked_by in
    (
      λ ready. record {
        no_project =
            λ project. let named = level.1 project in absurd (ground (arith, ready, named));
        leaf = children.0 (ground (arith, ready));
        unblocked = blockers.0 (ground (arith, ready));
      },
      λ ready.
          let none_below = children.1 ready.leaf in
          let resolved = blockers.1 ready.unblocked in
          let other : level_is it.level "Project" ≡ false =
            elim (Bool-cases (level_is it.level "Project")) [
              | inl project ↦ absurd (ready.no_project (level.0 project))
              | inr other ↦ other
            ] in
          rw (other, none_below, resolved) refl,
    )

abbrev pub IsAmong : String → List String → Type 0
IsAmong c [] = ⊥
IsAmong c (have ∷ rest) = (have ≡ c) ⊎ IsAmong c rest

-- A worker may take a card that asks for nothing, for anything, or for something that the worker has.
abbrev pub IsServed : List String → Option String → Type 0
IsServed capabilities none = Unit
IsServed capabilities (some c) = (c ≡ "any") ⊎ IsAmong c capabilities

any_iff :
    (c : String) (capabilities : List String)
    → (any (λ have. str_eq have c) capabilities ≡ true) ↔ IsAmong c capabilities
any_iff c [] = (λ h. absurd cc, λ h. absurd h)
any_iff c (have ∷ rest) =
    let one = eq_iff have c in
    let more = any_iff c rest in
    (
      λ h. elim (Bool-cases (str_eq have c)) [
        | inl same ↦ inl (one.0 same)
        | inr other ↦ inr (more.0 (ground (arith, h, other)))
      ],
      λ h. elim h [
        | inl same ↦ rw (one.1 same) refl
        | inr later ↦ let found = more.1 later in ground (arith, found)
      ],
    )

pub serves_iff :
    (capabilities : List String) (capability : Option String)
    → (serves capabilities capability ≡ true) ↔ IsServed capabilities capability
unfolding serves
serves_iff capabilities none = (λ h. tt, λ h. refl)
serves_iff capabilities (some c) =
    let one = eq_iff c "any" in
    let more = any_iff c capabilities in
    (
      λ h. elim (Bool-cases (str_eq c "any")) [
        | inl anything ↦ inl (one.0 anything)
        | inr other ↦ inr (more.0 (ground (arith, h, other)))
      ],
      λ h. elim h [
        | inl anything ↦ rw (one.1 anything) refl
        | inr known ↦ let found = more.1 known in ground (arith, found)
      ],
    )
