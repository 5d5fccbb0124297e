-- ===== src/Schema.antt =====
-- src/schema.rs: the two rungs, Project and Task. The run budget and the agents' defaults are left out.
pub mod Remotes
use sandboard.Prelude.{
  ℕ, zero, suc, String, Option, none, some, List, [], ◌∷◌, Bool, true, false, not, find_first,
  if◌then◌else◌,
}

pub record Level : Type 0 where
  pub name : String
  pub horizon : Option String
  pub owner : Option String
  pub elaborate : Option String
  pub requires : List String
  pub claimable : Bool

unfoldable pub default_levels : List Level
default_levels =
    record {
      name = "Project";
      horizon = some "2q";
      owner = some "human";
      elaborate = some "on_commit";
      requires = [];
      claimable = false;
    }
    ∷ record {
      name = "Task";
      horizon = some "1d";
      owner = some "agent";
      elaborate = none;
      requires = "definition_of_done" ∷ [];
      claimable = true;
    }
    ∷ []

pub record Schema : Type 0 where
  pub levels : List Level

unfoldable pub default_schema : Schema
unfolding default_levels
default_schema = record { levels = default_levels }

abbrev first : List Level → Option Level
first [] = none
first (l ∷ _) = some l

abbrev last : List Level → Option Level
last [] = none
last (l ∷ []) = some l
last (_ ∷ m ∷ rest) = last (m ∷ rest)

abbrev or_else : Option Level → Option Level → Option Level
or_else none m = m
or_else (some l) _ = some l

unfoldable pub project_level : Schema → Option Level
project_level s = or_else (find_first (λ l. not l.claimable) s.levels) (first s.levels)

unfoldable pub task_level : Schema → Option Level
task_level s = or_else (find_first (λ l. l.claimable) s.levels) (last s.levels)

unfoldable pub level_for_depth : Schema → ℕ → Option Level
unfolding task_level
level_for_depth s zero = first s.levels
level_for_depth s (suc _) = task_level s
