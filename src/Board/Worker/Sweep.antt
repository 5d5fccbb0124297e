-- ===== src/Board/Worker/Sweep.antt =====
-- src/store.rs: what `sweep_leases` returns, and what it does to the cards.
use sandboard.Prelude.{
  ℕ, ◌≡◌, ◌↔◌, ◌⊎◌, refl, String, none, some, List, [], ◌∷◌, ◌++◌, Bool, true, false, arith,
  Bool-cases, inl, inr,
}
use sandboard.Prelude.Result.{ok}
use sandboard.Map
use sandboard.Map.{nat_key}
use sandboard.Map.Set.{contains}
use sandboard.Model.State.{State, state_key}
use sandboard.Model.Item.{ItemId, WorkItem, Transition}
use sandboard.Machine.{check, allowed, requires_claimable}
use sandboard.Board.Sound.{IsSound}
use sandboard.Board.Transition.{enter, frees_card}
use sandboard.Board.Worker.{overdue_in, requeue_all, sweep_leases}
use sandboard.Board.Worker.Requeue.{Shows, requeue_all-other, requeue_all-listed}
use sandboard.Board.Core.{Board, ◌>>=◌, attempt}
use sandboard.Board.Worker.Overdue.{IsLate, IsListed, listed_card, is_overdue-IsListed}

requeue_all_done : (ids : List ItemId) (b : Board) → (requeue_all ids b).0 ≡ ok tt
unfolding requeue_all ◌>>=◌ attempt
requeue_all_done [] b = refl
requeue_all_done (id ∷ rest) b = requeue_all_done rest _

-- Backlog admits a card in Claimed or Running that says when it is done.
admitted :
    (it : WorkItem) (dod : String) (kids : Bool) (blockers : List ItemId)
    → (it.state ≡ State.claimed) ⊎ (it.state ≡ State.running)
    → it.definition_of_done ≡ some dod
    → check it State.backlog kids blockers ≡ ok tt
unfolding check allowed requires_claimable
admitted it dod kids blockers at says = elim at [
  | inl claimed ↦ ground (arith, claimed, says)
  | inr running ↦ ground (arith, running, says)
]

abbrev pub sweep_entry : ℕ → WorkItem → Transition
sweep_entry now it = record {
  at = now;
  source = it.state;
  to = State.backlog;
  by = "deadline-sweeper";
  reason = some "run deadline exceeded";
}

swept :
    (b : Board) (c : ItemId) (it : WorkItem) (dod : String) (ids : List ItemId)
    → Map.get b.state.items c ≡ some it
    → it.definition_of_done ≡ some dod
    → ((contains ids c ≡ true) ↔ IsLate b.clock it)
    → (now : WorkItem) × (Map.get (requeue_all ids b).1.state.items c ≡ some now)
      × (((contains ids c ≡ false) × (now ≡ it))
          ⊎ ((contains ids c ≡ true)
              × (now.state ≡ State.backlog)
              × (now.lease ≡ none)
              × (now.run_deadline_at ≡ none)
              × (now.history ≡ it.history ++ sweep_entry b.clock it ∷ [])))
unfolding enter frees_card
swept b c it dod ids found says late =
    let shown : Shows c it b.clock b = record { there = found; at = refl } in
    elim (Bool-cases (contains ids c)) [
      | inl listed ↦
          let admits = λ (kids : Bool) (blockers : List ItemId).
            admitted it dod kids blockers (late.0 listed).0 says in
          let after = requeue_all-listed ids b c it b.clock admits listed shown in
          (
            enter b.clock State.backlog "deadline-sweeper" (some "run deadline exceeded") it,
            after.there,
            inr (listed, refl, refl, refl, refl),
          )
      | inr free ↦ (it, (requeue_all-other ids b c it b.clock free shown).there, inl (free, refl))
    ]

-- On a sound board the sweep succeeds and returns exactly the cards in Claimed or Running whose run deadline
-- has passed, or whose lease has where they carry no deadline. A card on the board that has a definition of
-- done is afterwards as it was, where it is none of these, and else stands in Backlog without a lease and a
-- deadline, its history longer by the sweeper's move.
pub sweep_leases_lem :
    (b : Board) (c : ItemId) (it : WorkItem) (dod : String)
    → IsSound b.state
    → Map.get b.state.items c ≡ some it
    → it.definition_of_done ≡ some dod
    → (ids : List ItemId) × ((sweep_leases b).0 ≡ ok ids)
      × ((x : ItemId) → (contains ids x ≡ true) ↔ IsListed b x)
      × (now : WorkItem) × (Map.get (sweep_leases b).1.state.items c ≡ some now)
      × (((contains ids c ≡ false) × (now ≡ it))
          ⊎ ((contains ids c ≡ true)
              × (now.state ≡ State.backlog)
              × (now.lease ≡ none)
              × (now.run_deadline_at ≡ none)
              × (now.history ≡ it.history ++ sweep_entry b.clock it ∷ [])))
unfolding sweep_leases ◌>>=◌
sweep_leases_lem b c it dod h found says =
    let ids = overdue_in b State.claimed ++ overdue_in b State.running in
    let (now, there, rest) = swept b c it dod ids found says (listed_card b c it h found) in
    (
      ids,
      rw (sweep_leases, requeue_all_done ids b) refl,
      is_overdue-IsListed b h,
      now,
      rw (sweep_leases, requeue_all_done ids b) there,
      rest,
    )
