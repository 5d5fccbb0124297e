-- ===== src/Model/Plan.antt =====
-- src/model.rs and src/schema.rs: the plan of a Project, the proposal on a card, the remotes of a run.
use sandboard.Prelude.{ℕ, String, Option, List, [], Bool, ◌||◌, ◌&&◌, not, if◌then◌else◌}
use sandboard.Prelude.Text.{str_eq, starts_with, format, trim, is_empty}
use sandboard.Prelude.{◌∷◌}

pub record RepoConfig : Type 0 where
  pub upstream : String
  pub fork : String
  pub base : String

pub data PlanStatus : Type 0 where
  empty awaiting_approval approved : PlanStatus

pub record PlanTaskSpec : Type 0 where
  pub key : String
  pub title : String
  pub intent : String
  pub definition_of_done : String
  pub blocked_by_keys : List String
  pub capability : Option String
  pub repo : Option RepoConfig
  pub item_id : Option ℕ

pub record PlanArtifact : Type 0 where
  pub revision : ℕ
  pub summary : String
  pub status : PlanStatus
  pub tasks : List PlanTaskSpec
  pub cancel_keys : List String
  pub cancel_item_ids : List ℕ
  pub approved_revision : Option ℕ

pub record TaskProposal : Type 0 where
  pub summary : String
  pub tasks : List PlanTaskSpec

abbrev pub initial_plan_title_legacy : String
initial_plan_title_legacy = "Initial plan"

abbrev pub initial_plan_title_prefix : String
initial_plan_title_prefix = "Initial Plan for "

unfoldable pub initial_plan_title : String → String
initial_plan_title project_title = format (initial_plan_title_prefix ∷ project_title ∷ [])

unfoldable pub title_is_initial_plan : String → Bool
title_is_initial_plan title =
    str_eq title initial_plan_title_legacy || starts_with title initial_plan_title_prefix

unfoldable pub is_complete : RepoConfig → Bool
is_complete r = not (is_empty (trim r.upstream))

-- A push remote that is not the repository of the pull request.
unfoldable pub uses_cross_fork : RepoConfig → Bool
uses_cross_fork r =
    let f = trim r.fork in
    let u = trim r.upstream in not (is_empty f) && not (is_empty u) && not (str_eq f u)

unfoldable pub clone_target : RepoConfig → String
unfolding uses_cross_fork
clone_target r = if uses_cross_fork r then trim r.fork else trim r.upstream

unfoldable pub base_ref : RepoConfig → String
unfolding uses_cross_fork
base_ref r =
    if uses_cross_fork r
    then format ("upstream/" ∷ trim r.base ∷ [])
    else format ("origin/" ∷ trim r.base ∷ [])

unfoldable pub normalized : RepoConfig → RepoConfig
normalized r = record {
  upstream = trim r.upstream;
  fork = trim r.fork;
  base = if is_empty (trim r.base) then "main" else r.base;
}
