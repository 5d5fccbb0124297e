-- ===== src/Board/Invariant/Walks.antt =====
-- A closed predicate survives the verbs on a card with all that lies below it.
use sandboard.Prelude.{ℕ, zero, suc, String, Option, none, some, List, [], ◌∷◌, false, arith}
use sandboard.Prelude.Result.{ok}
use sandboard.Map.{nat_key}
use sandboard.Model.Item.{ItemId, WorkItem}
use sandboard.Board.Core.{Board}
use sandboard.Board.Core.Keeps.{Keeps, Keeps-pure, Keeps-bind}
use sandboard.Board.Invariant.Benign.{IsBenign-Eased}
use sandboard.Board.Invariant.Moving.{move_rules}
use sandboard.Board.Invariant.Closed.{Closed, IsBenign, closed_rules}
use sandboard.Board.Scope.{
  cut_loop, tell_cut, cut_scope, restore_card, restore_found, restore_all, tell_restored,
  restore_order, unarchive_scope,
}

module _ {P : Board → Type 0} (c : Closed P) where
  cut_loop-Keeps :
      (rounds : ℕ) (reason : Option String) (stack touched : List ItemId)
      → Keeps P (cut_loop rounds reason stack touched)
  unfolding cut_loop
  cut_loop-Keeps zero reason stack touched = Keeps-pure none
  cut_loop-Keeps (suc rounds) reason [] touched = Keeps-pure (some touched)
  cut_loop-Keeps (suc rounds) reason (cur ∷ stack) touched =
      Keeps-bind _ _ (search move_rules)
        λ kids. Keeps-bind _ _ (search move_rules) (λ cut. cut_loop-Keeps rounds reason _ _)

  tell_cut-Keeps :
      (touched : Option (List ItemId)) (id : ItemId) (o : Option WorkItem)
      → Keeps P (tell_cut touched id o)
  unfolding tell_cut
  tell_cut-Keeps none id o = Keeps-pure tt
  tell_cut-Keeps (some touched) id none = Keeps-pure tt
  tell_cut-Keeps (some touched) id (some t) = search closed_rules

  pub cut_scope-Keeps :
      (rounds : ℕ) (id : ItemId) (reason : Option String) → Keeps P (cut_scope rounds id reason)
  unfolding cut_scope
  cut_scope-Keeps rounds id reason = search (closed_rules, cut_loop-Keeps, tell_cut-Keeps) depth 10

  released-IsBenign :
      IsBenign {E = Unit}
        (λ _ x. ok (record x { lease = none; run_deadline_at = none; awaiting_dispatch = false }))
  released-IsBenign = IsBenign-Eased _ (λ b old it e. ground arith)

  restore_card-Keeps :
      (cur : ItemId) (reason : Option String) (it : WorkItem) → Keeps P (restore_card cur reason it)
  unfolding restore_card
  restore_card-Keeps cur reason it = search (move_rules, released-IsBenign) depth 12

  restore_found-Keeps :
      (cur : ItemId) (reason : Option String) (o : Option WorkItem)
      → Keeps P (restore_found cur reason o)
  unfolding restore_found
  restore_found-Keeps cur reason none = Keeps-pure none
  restore_found-Keeps cur reason (some it) = search (closed_rules, restore_card-Keeps)

  restore_all-Keeps :
      (ids : List ItemId) (reason : Option String) (touched : List ItemId)
      → Keeps P (restore_all ids reason touched)
  unfolding restore_all
  restore_all-Keeps [] reason touched = Keeps-pure touched
  restore_all-Keeps (cur ∷ rest) reason touched = Keeps-bind _ _ (search closed_rules) λ found.
      Keeps-bind _ _ (restore_found-Keeps cur reason found)
        λ restored. restore_all-Keeps rest reason _

  tell_restored-Keeps :
      (touched : List ItemId) (id : ItemId) (o : Option WorkItem)
      → Keeps P (tell_restored touched id o)
  unfolding tell_restored
  tell_restored-Keeps touched id none = Keeps-pure tt
  tell_restored-Keeps touched id (some t) = search closed_rules

  restore_order-Keeps :
      (id : ItemId) (reason : Option String) (order : Option (List ItemId))
      → Keeps P (restore_order id reason order)
  unfolding restore_order
  restore_order-Keeps id reason none = Keeps-pure none
  restore_order-Keeps id reason (some order) =
      search (closed_rules, restore_all-Keeps, tell_restored-Keeps) depth 10

  pub unarchive_scope-Keeps :
      (rounds : ℕ) (id : ItemId) (reason : Option String)
      → Keeps P (unarchive_scope rounds id reason)
  unfolding unarchive_scope
  unarchive_scope-Keeps rounds id reason = search (closed_rules, restore_order-Keeps) depth 12
