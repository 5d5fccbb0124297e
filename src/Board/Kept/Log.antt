-- ===== src/Board/Kept/Log.antt =====
-- The numbering of the events survives each primitive write.
use sandboard.Prelude.{
  ℕ, refl, String, Option, Bool, Option-cases, none, some, inl, inr, Bool-cases, List, [], ◌∷◌,
}
use sandboard.Prelude.Result.{Result, ok, err}
use sandboard.Map
use sandboard.Map.{nat_key}
use sandboard.Schema.{Schema}
use sandboard.Model.State.{State}
use sandboard.Model.Item.{ItemId, WorkItem, Origin}
use sandboard.Board.State.{BoardState}
use sandboard.Board.Event.{BoardEvent, seq_of}
use sandboard.Board.Tree.{populate_blockers}
use sandboard.Board.Feed.{emit}
use sandboard.Board.Feed.CatchUp.{IsLogged, IsLogged-number_and_send}
use sandboard.Board.State.{remove_item}
use sandboard.Board.Moves.{spawn_delete}
use sandboard.Board.Scope.{remove_one, remove_all, delete_found, delete_item}
use sandboard.Board.Transition.{transition_card, change_card, store_back}
use sandboard.Board.Create.{insert_new, create_under}
use sandboard.Board.Core.{◌>>=◌, Board, new_board, modify}
use sandboard.Board.Core.Keeps.{Keeps, Keeps-modify, keeps_rules}
use sandboard.Board.Invariant.Closed.{Closed}

with_state : (s : BoardState) (b : Board) → IsLogged b → IsLogged (record b { state = s })
with_state s b h = record { numbered = h.numbered; counted = h.counted; window = h.window }

Log-emit : {E : Type 0} (item : WorkItem) → Keeps {E = E} IsLogged (modify (emit item))
unfolding emit seq_of
Log-emit item = Keeps-modify (emit item) λ b h.
    let sent =
      IsLogged-number_and_send (λ seq. BoardEvent.upsert seq (populate_blockers b.state item)) b
        (λ n. refl) h in
    record { numbered = sent.numbered; counted = sent.counted; window = sent.window }

Log-insert_new : {E : Type 0} (card : Board → WorkItem) → Keeps {E = E} IsLogged (insert_new card)
unfolding insert_new
Log-insert_new card = record { at = λ b h. with_state _ b h }

Log-create_under :
    (parent : Option ItemId) (title intent : String) (dod : Option String) (origin : Origin)
    (above_line : Bool) (capability : Option String)
    → Keeps IsLogged (create_under parent title intent dod origin above_line capability)
unfolding create_under
Log-create_under parent title intent dod origin above_line capability =
    search (keeps_rules, Log-emit, Log-insert_new) depth 10

Log-store_back :
    {E : Type 0} (r : Result E WorkItem) (id : ItemId) (b : Board)
    → IsLogged b
    → IsLogged (store_back r id b).1
unfolding store_back
Log-store_back (err e) id b h = h
Log-store_back (ok it) id b h = with_state _ b h

Log-change_card :
    {E : Type 0} (missing : E) (id : ItemId) (f : Board → WorkItem → Result E WorkItem) (b : Board)
    → IsLogged b
    → IsLogged (change_card missing id f b).1
unfolding change_card
Log-change_card missing id f b h = elim (Option-cases (Map.get b.state.items id)) [
  | inl e ↦ rw (e, change_card) h
  | inr (old, e) ↦ rw (e, change_card) (Log-store_back (f b old) id b h)
]

Log-transition_card :
    (id : ItemId) (to : State) (by : String) (reason : Option String)
    → Keeps IsLogged (transition_card id to by reason)
unfolding transition_card
Log-transition_card id to by reason = record { at = λ b h. with_state _ b h }

pub IsLogged-Closed : Closed IsLogged
IsLogged-Closed = record {
  sent = IsLogged-number_and_send;
  dirtied = λ d b h. record { numbered = h.numbered; counted = h.counted; window = h.window };
  narrated = λ lines b h. with_state _ b h;
  spawned = λ envs b h. record { numbered = h.numbered; counted = h.counted; window = h.window };
  ticked = λ now b h. record { numbered = h.numbered; counted = h.counted; window = h.window };
  noted = λ logs b h. record { numbered = h.numbered; counted = h.counted; window = h.window };
  seated = λ session b h. with_state _ b h;
  moved = Log-transition_card;
  changed = λ missing id f b _ h. Log-change_card missing id f b h;
  created = Log-create_under;
}

-- No event has been sent from a new board.
pub new_board-IsLogged : (schema : Schema) (now : ℕ) → IsLogged (new_board schema now)
unfolding new_board
new_board-IsLogged schema now = record { numbered = tt; counted = refl; window = refl }

log_spawn_delete : (env : Option String) (b : Board) → IsLogged b → IsLogged (spawn_delete env b)
unfolding spawn_delete
log_spawn_delete none b h = h
log_spawn_delete (some env) b h = record {
  numbered = h.numbered;
  counted = h.counted;
  window = h.window;
}

log_remove_all : (ids : List ItemId) (b : Board) → IsLogged b → IsLogged (remove_all ids b)
unfolding remove_all remove_one
log_remove_all [] b h = h
log_remove_all (id ∷ ids) b h =
    log_remove_all ids _ (log_spawn_delete _ _ (with_state (remove_item id b.state).1 b h))

log_delete_found :
    (id : ItemId) (o : Option (List ItemId)) (b : Board)
    → IsLogged b
    → IsLogged (delete_found id o b)
unfolding delete_found seq_of
log_delete_found id none b h = h
log_delete_found id (some out) b h =
    let r = log_remove_all out b h in
    IsLogged-number_and_send (λ seq. BoardEvent.delete seq id) _ (λ n. refl)
      (record { numbered = r.numbered; counted = r.counted; window = r.window })

-- A deletion is one more event.
pub delete_item-IsLogged :
    (rounds : ℕ) (id : ItemId) (b : Board) → IsLogged b → IsLogged (delete_item rounds id b).1
unfolding delete_item ◌>>=◌
delete_item-IsLogged rounds id b h = elim (Bool-cases (Map.contains_key b.state.items id)) [
  | inr missing ↦ rw (delete_item, missing) h
  | inl there ↦ rw (delete_item, there) (log_delete_found id _ b h)
]
