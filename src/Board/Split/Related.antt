-- ===== src/Board/Split/Related.antt =====
-- src/store.rs: what the checks of a split let through.
use sandboard.Prelude.{
  ℕ, ◌+◌, ◌≤◌, ◌≡◌, String, List, [], ◌∷◌, false, ◌||◌, All, length, Bool-cases, inl, inr, arith,
}
use sandboard.Prelude.Text
use sandboard.Prelude.Text.{str_eq}
use sandboard.Model.Plan.{PlanTaskSpec}
use sandboard.Board.Proposal.{normalize_title}
use sandboard.Board.Split.{SplitChildSpec, child_spec, has_title, distinct_specs}

-- No two rows have the same title, up to case and spaces.
abbrev pub IsDistinct : List PlanTaskSpec → Type 0
IsDistinct [] = Unit
IsDistinct (spec ∷ rest) =
    All (λ other. str_eq (normalize_title spec.title) (normalize_title other.title) ≡ false) rest
    × IsDistinct rest

abbrev IsUnseen : List String → List PlanTaskSpec → Type 0
IsUnseen seen specs = All (λ spec. has_title seen (normalize_title spec.title) ≡ false) specs

IsUnseen-rest :
    (k : String) (seen : List String) (specs : List PlanTaskSpec)
    → IsUnseen (k ∷ seen) specs
    → IsUnseen seen specs × All (λ other. str_eq k (normalize_title other.title) ≡ false) specs
unfolding has_title
IsUnseen-rest k seen [] h = (tt, tt)
IsUnseen-rest k seen (spec ∷ rest) h =
    let later = IsUnseen-rest k seen rest h.1 in ((ground arith, later.0), (ground arith, later.1))

distinct_specs-IsDistinct :
    (idx : ℕ) (seen : List String) (children : List SplitChildSpec)
    → IsUnseen seen (distinct_specs idx seen children)
      × IsDistinct (distinct_specs idx seen children)
      × (length (distinct_specs idx seen children) ≤ length children)
unfolding distinct_specs child_spec
distinct_specs-IsDistinct idx seen [] = (tt, tt, omega arith)
distinct_specs-IsDistinct idx seen (child ∷ rest) =
    elim (Bool-cases (
      Text.is_empty (normalize_title child.title)
      || has_title seen (normalize_title child.title))) [
        | inl skip ↦
            let later = distinct_specs-IsDistinct (idx + 1) seen rest in
            rw (distinct_specs, skip) (later.0, later.1, omega (arith, later.2))
        | inr take ↦
            let k = normalize_title child.title in
            let later = distinct_specs-IsDistinct (idx + 1) (k ∷ seen) rest in
            let parts = IsUnseen-rest k seen _ later.0 in
            rw (distinct_specs, take)
              ((ground arith, parts.0), (parts.1, later.1), omega (arith, later.2))
      ]

-- The rows of a split have titles that are distinct up to case and spaces, and there are no more of
-- them than children.
pub distinct_specs_lem :
    (children : List SplitChildSpec)
    → IsDistinct (distinct_specs 0 [] children)
      × (length (distinct_specs 0 [] children) ≤ length children)
distinct_specs_lem children =
    let (_, distinct, count) = distinct_specs-IsDistinct 0 [] children in (distinct, count)
