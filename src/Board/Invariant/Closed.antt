-- ===== src/Board/Invariant/Closed.antt =====
-- The primitive writes of the board's methods. A predicate that survives them all survives a method
-- that is built from them.
use sandboard.Prelude.{ℕ, ◌≡◌, refl, String, Option, none, some, List, Bool, true}
use sandboard.Prelude.Result.{Result, ok}
use sandboard.Map
use sandboard.Map.{Map, nat_key}
use sandboard.Model.State.{State}
use sandboard.Model.Item.{ItemId, WorkItem, Origin}
use sandboard.Model.Cockpit.{CockpitSession}
use sandboard.Board.State.{StoryLine}
use sandboard.Board.Event.{BoardEvent, seq_of}
use sandboard.Board.Tree.{goal_of, populate_blockers}
use sandboard.Board.Feed.{number_and_send, emit, story}
use sandboard.Board.Transition.{transition_card, change_card, require_card, reread}
use sandboard.Board.Create.{create_under, transition_plain}
use sandboard.Board.Moves.{spawn_delete}
use sandboard.Board.Cockpit.{save_session}
use sandboard.Board.Sound.{IsCard}
use sandboard.Board.Core.{Board, modify}
use sandboard.Board.Core.Given.{From}
use sandboard.Board.Core.Keeps.{Keeps, Keeps-modify, keeps_rules}

-- `it` is `old` after a write that leaves it the same card in the same state, with the same history.
pub record IsVersion (old it : WorkItem) : Type 0 where
  pub same_id : it.id ≡ old.id
  pub same_parent : it.parent ≡ old.parent
  pub same_state : it.state ≡ old.state
  pub same_history : it.history ≡ old.history
  pub card : IsCard it

-- A write under the lock that leaves every card the same card in the same state.
abbrev pub IsBenign : {E : Type 0} → (Board → WorkItem → Result E WorkItem) → Type 0
IsBenign f = (b : Board) (old it : WorkItem) → IsCard old → f b old ≡ ok it → IsVersion old it

-- The same of one write, from the card that it finds on the board.
abbrev pub Rewrites :
    {E : Type 0} → ItemId → (Board → WorkItem → Result E WorkItem) → Board → Type 0
Rewrites id f b =
    (old it : WorkItem)
    → Map.get b.state.items id ≡ some old
    → IsCard old
    → f b old ≡ ok it
    → IsVersion old it

pub record Closed (P : Board → Type 0) : Type 1 where
  pub sent :
      (event : ℕ → BoardEvent) (b : Board)
      → ((n : ℕ) → seq_of (event n) ≡ n)
      → P b
      → P (number_and_send event b)
  pub dirtied : (d : Bool) (b : Board) → P b → P (record b { dirty = d })
  pub narrated :
      (lines : Map ItemId (List StoryLine)) (b : Board)
      → P b
      → P (record b { state = record b.state { stories = lines } })
  pub spawned : (envs : List String) (b : Board) → P b → P (record b { deleted = envs })
  pub ticked : (now : ℕ) (b : Board) → P b → P (record b { clock = now })
  pub noted :
      (logs : Map ItemId (List String)) (b : Board) → P b → P (record b { live_agent_logs = logs })
  pub seated :
      (session : Option CockpitSession) (b : Board)
      → P b
      → P (record b { state = record b.state { cockpit_session = session } })
  pub moved :
      (id : ItemId) (to : State) (by : String) (reason : Option String)
      → Keeps P (transition_card id to by reason)
  pub changed :
      {E : Type 0} (missing : E) (id : ItemId) (f : Board → WorkItem → Result E WorkItem)
      (b : Board)
      → Rewrites id f b
      → P b
      → P (change_card missing id f b).1
  pub created :
      (parent : Option ItemId) (title intent : String) (dod : Option String) (origin : Origin)
      (above_line : Bool) (capability : Option String)
      → Keeps P (create_under parent title intent dod origin above_line capability)

module _ {P : Board → Type 0} (c : Closed P) where
  pub Closed-emit : (item : WorkItem) (b : Board) → P b → P (emit item b)
  unfolding emit seq_of
  Closed-emit item b h =
      c.dirtied true _
        (c.sent (λ seq. BoardEvent.upsert seq (populate_blockers b.state item)) b (λ n. refl) h)

  pub Closed-story : (near : ItemId) (text : String) (b : Board) → P b → P (story near text b)
  unfolding story seq_of
  Closed-story near text b h =
      c.sent (λ seq. BoardEvent.story seq (goal_of b.state near) b.clock text) _ (λ n. refl)
        (c.dirtied true _ (c.narrated _ b h))

  pub Closed-spawn_delete : (env : Option String) (b : Board) → P b → P (spawn_delete env b)
  unfolding spawn_delete
  Closed-spawn_delete none b h = h
  Closed-spawn_delete (some env) b h = c.spawned _ b h

  pub Closed-save_session : (s : Option CockpitSession) (b : Board) → P b → P (save_session s b)
  unfolding save_session
  Closed-save_session s b h = c.dirtied true _ (c.seated s b h)

module _ {E : Type 0} {P : Board → Type 0} (c : Closed P) where
  pub Keeps-emit : (item : WorkItem) → Keeps {E = E} P (modify (emit item))
  Keeps-emit item = Keeps-modify (emit item) (Closed-emit c item)

  pub Keeps-story : (near : ItemId) (text : String) → Keeps {E = E} P (modify (story near text))
  Keeps-story near text = Keeps-modify (story near text) (Closed-story c near text)

  pub Keeps-spawn_delete : (env : Option String) → Keeps {E = E} P (modify (spawn_delete env))
  Keeps-spawn_delete env = Keeps-modify (spawn_delete env) (Closed-spawn_delete c env)

  pub Keeps-save_session : (s : Option CockpitSession) → Keeps {E = E} P (modify (save_session s))
  Keeps-save_session s = Keeps-modify (save_session s) (Closed-save_session c s)

module _ {P : Board → Type 0} (c : Closed P) where
  pub Keeps-transition_card :
      (id : ItemId) (to : State) (by : String) (reason : Option String)
      → Keeps P (transition_card id to by reason)
  Keeps-transition_card = c.moved

  pub Keeps-change_card :
      {E : Type 0} (missing : E) (id : ItemId) (f : Board → WorkItem → Result E WorkItem)
      → IsBenign f
      → Keeps P (change_card missing id f)
  Keeps-change_card missing id f benign = record {
    at = λ b h. c.changed missing id f b (λ old it _. benign b old it) h;
  }

  -- The write may rest on what an earlier step has left.
  pub From-change_card :
      {E : Type 0} {Q : Board → Type 0} (missing : E) (id : ItemId)
      (f : Board → WorkItem → Result E WorkItem)
      → ((b : Board) → Q b → Rewrites id f b)
      → From Q P (change_card missing id f)
  From-change_card missing id f writes = record {
    at = λ b q h. c.changed missing id f b (writes b q) h;
  }

  pub Keeps-create_under :
      (parent : Option ItemId) (title intent : String) (dod : Option String) (origin : Origin)
      (above_line : Bool) (capability : Option String)
      → Keeps P (create_under parent title intent dod origin above_line capability)
  Keeps-create_under = c.created

module _ {E : Type 0} {P : Board → Type 0} where
  pub Keeps-require_card : (missing : E) (id : ItemId) → Keeps P (require_card missing id)
  unfolding require_card
  Keeps-require_card missing id = record { at = λ b h. h }

  pub Keeps-reread : (id : ItemId) (it : WorkItem) → Keeps {E = E} P (reread id it)
  unfolding reread
  Keeps-reread id it = record { at = λ b h. h }

pub ruleset closed_rules = (
  keeps_rules, Keeps-emit, Keeps-story, Keeps-spawn_delete, Keeps-save_session, Keeps-require_card,
  Keeps-reread, Keeps-transition_card, Keeps-change_card, Keeps-create_under,
)

module _ {P : Board → Type 0} (c : Closed P) where
  pub Keeps-transition_plain :
      (id : ItemId) (to : State) (by : String) (reason : Option String)
      → Keeps P (transition_plain id to by reason)
  unfolding transition_plain
  Keeps-transition_plain id to by reason = search closed_rules
