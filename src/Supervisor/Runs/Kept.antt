-- ===== src/Supervisor/Runs/Kept.antt =====
-- src/supervisor.rs: which sandboxes the reconciliation keeps.
use Prim.Native.String.{◌++◌}
use text.Mathlib.TextEquality.{starts_with_iff}
use text.Mathlib.TextLemmas.{append_assoc}
use sandboard.Prelude.{
  ◌≡◌, refl, sym, ap, ◌∙◌, String, Option, none, some, ◌↔◌, true, false, is_some, arith,
}
use sandboard.Prelude.Text.{format, show_ℕ, starts_with, opt_str_eq}
use sandboard.Model.State.{is_terminal}
use sandboard.Model.Item.{WorkItem}
use sandboard.Supervisor.Runs.{
  adoptable, should_keep_sandbox, keeps_named, card_sandbox_name, card_sandbox_stem,
}

-- A sandbox that a card is adopted with is a sandbox that is kept for the card.
pub adoptable-kept :
    (i j : WorkItem) (sandbox : String)
    → adoptable (some i) sandbox ≡ some j
    → (j ≡ i) × (should_keep_sandbox (some i) sandbox ≡ true)
unfolding adoptable should_keep_sandbox keeps_named is_terminal opt_str_eq
adoptable-kept i j sandbox h = ground arith

numbered_from : (x : String) → "-" ++ ("" ++ ("a" ++ x)) ≡ "-a" ++ x
numbered_from x = sym (append_assoc "-" "" ("a" ++ x)) ∙ sym (append_assoc "-" "a" x)

attempt_prefix :
    (id attempt : String) → starts_with (card_sandbox_name id attempt) (card_sandbox_stem id) ≡ true
unfolding card_sandbox_name card_sandbox_stem format
attempt_prefix id attempt = (starts_with_iff _ _).1 (
  "a" ++ (attempt ++ ""),
  simp append_assoc (ap (λ v. "sb" ++ ("-card-" ++ (id ++ v))) (numbered_from _)),
)

kept_named :
    (i : WorkItem) (o : Option String) (attempt : String)
    → keeps_named i o (card_sandbox_name (show_ℕ i.id) attempt) ≡ is_some o
unfolding keeps_named
kept_named i none attempt = refl
kept_named i (some env) attempt = let named = attempt_prefix (show_ℕ i.id) attempt in ground arith

-- The sandbox of any attempt at a card is kept just while the card is neither done nor retired and
-- has an environment.
pub should_keep_sandbox_iff :
    (i : WorkItem) (attempt : String)
    → (should_keep_sandbox (some i) (card_sandbox_name (show_ℕ i.id) attempt) ≡ true)
      ↔ ((is_terminal i.state ≡ false) × (is_some i.environment ≡ true))
unfolding should_keep_sandbox
should_keep_sandbox_iff i attempt = let named = kept_named i i.environment attempt in ground arith
