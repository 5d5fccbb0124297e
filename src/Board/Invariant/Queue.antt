-- ===== src/Board/Invariant/Queue.antt =====
-- A closed predicate survives the methods of the queue.
use sandboard.Prelude.{◌≡◌, String, List, [], ◌∷◌, Bool, false, arith}
use sandboard.Prelude.Result.{ok}
use sandboard.Map.{nat_key}
use sandboard.Model.State.{is_terminal}
use sandboard.Model.Item.{ItemId, WorkItem}
use sandboard.Board.Sound.{IsCard}
use sandboard.Board.Core.{Board}
use sandboard.Board.Core.Keeps.{Keeps, Keeps-pure, Keeps-bind}
use sandboard.Board.Invariant.Benign.{IsBenign-Eased}
use sandboard.Board.Invariant.Closed.{Closed, IsBenign, IsVersion, closed_rules}
use sandboard.Board.State.{BoardState}
use sandboard.Board.Dispatch.{
  check_dispatch, queued_if, enqueue_dispatch, clear_dispatch, clear_all,
  clear_awaiting_under_project, enqueue_all, auto_enqueue_project, enqueue_projects,
  auto_enqueue_all, auto_changed, auto_on, auto_off, set_auto_dispatch,
}

queued-IsVersion :
    (s : BoardState) (id : ItemId) (old it : WorkItem)
    → queued_if (check_dispatch s id old) old ≡ ok it
    → IsCard old
    → IsVersion old it
unfolding queued_if check_dispatch is_terminal
queued-IsVersion s id old it e h = record {
  same_id = ground arith;
  same_parent = ground arith;
  same_state = ground arith;
  same_history = ground arith;
  card = record {
    unleased = λ free. ground (arith, h.unleased);
    at_rest = λ closed. ground arith;
    trail = ground (arith, h.trail);
  };
}

module _ {P : Board → Type 0} (c : Closed P) where
  queued-IsBenign : (id : ItemId) → IsBenign (λ b it. queued_if (check_dispatch b.state id it) it)
  queued-IsBenign id b old it h e = queued-IsVersion b.state id old it e h

  pub enqueue_dispatch-Keeps : (id : ItemId) → Keeps P (enqueue_dispatch id)
  unfolding enqueue_dispatch
  enqueue_dispatch-Keeps id = search (closed_rules, queued-IsBenign) depth 16

  cleared-IsBenign :
      IsBenign {E = String}
        (λ _ it. ok (record it { awaiting_dispatch = false; rebase_requested = false }))
  cleared-IsBenign = IsBenign-Eased _ (λ b old it e. ground arith)

  pub clear_dispatch-Keeps : (id : ItemId) → Keeps P (clear_dispatch id)
  unfolding clear_dispatch
  clear_dispatch-Keeps id = search (closed_rules, cleared-IsBenign) depth 10

  clear_all-Keeps : (ids : List ItemId) → Keeps P (clear_all ids)
  unfolding clear_all
  clear_all-Keeps [] = Keeps-pure tt
  clear_all-Keeps (id ∷ rest) =
      Keeps-bind _ _ (search (closed_rules, clear_dispatch-Keeps)) (λ _. clear_all-Keeps rest)

  clear_awaiting-Keeps : (project_id : ItemId) → Keeps P (clear_awaiting_under_project project_id)
  unfolding clear_awaiting_under_project
  clear_awaiting-Keeps project_id = search (closed_rules, clear_all-Keeps) depth 8

  enqueue_all-Keeps : (ids : List ItemId) → Keeps P (enqueue_all ids)
  unfolding enqueue_all
  enqueue_all-Keeps [] = Keeps-pure tt
  enqueue_all-Keeps (id ∷ rest) =
      Keeps-bind _ _ (search (closed_rules, enqueue_dispatch-Keeps)) (λ _. enqueue_all-Keeps rest)

  pub auto_enqueue_project-Keeps : (project_id : ItemId) → Keeps P (auto_enqueue_project project_id)
  unfolding auto_enqueue_project
  auto_enqueue_project-Keeps project_id = search (closed_rules, enqueue_all-Keeps) depth 8

  enqueue_projects-Keeps : (ids : List ItemId) → Keeps P (enqueue_projects ids)
  unfolding enqueue_projects
  enqueue_projects-Keeps [] = Keeps-pure tt
  enqueue_projects-Keeps (id ∷ rest) =
      Keeps-bind _ _ (auto_enqueue_project-Keeps id) (λ _. enqueue_projects-Keeps rest)

  pub auto_enqueue_all-Keeps : Keeps P auto_enqueue_all
  unfolding auto_enqueue_all
  auto_enqueue_all-Keeps = search (closed_rules, enqueue_projects-Keeps) depth 8

  auto_on-Keeps : (id : ItemId) (item : WorkItem) → Keeps P (auto_on id item)
  unfolding auto_on
  auto_on-Keeps id item = search (closed_rules, auto_enqueue_project-Keeps) depth 8

  auto_off-Keeps : (id : ItemId) (item : WorkItem) → Keeps P (auto_off id item)
  unfolding auto_off
  auto_off-Keeps id item = search (closed_rules, clear_awaiting-Keeps) depth 8

  auto-IsBenign : (enabled : Bool) → IsBenign (λ _ it. auto_changed it enabled)
  unfolding auto_changed
  auto-IsBenign enabled = IsBenign-Eased _ (λ b old it e. ground arith)

  pub set_auto_dispatch-Keeps :
      (id : ItemId) (enabled : Bool) → Keeps P (set_auto_dispatch id enabled)
  unfolding set_auto_dispatch
  set_auto_dispatch-Keeps id enabled =
      search (closed_rules, auto-IsBenign, auto_on-Keeps, auto_off-Keeps) depth 20
