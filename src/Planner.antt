-- ===== src/Planner.antt =====
-- planning/planner.py: the rule-based plan, revision, and the bounded repair loop around a language
-- model.
pub mod Baseline
pub mod Valid
pub mod Returns
pub mod Falls
use Prim.Native.String.{count}
use build_your_own_durable_a.Common.{
  ℕ, zero, suc, ◌+◌, String, Bool, true, false, not, Option, none, some, List, [], ◌∷◌, ◌==◌, ltb,
  if◌then◌else◌,
}
use build_your_own_durable_a.Common.Result.{
  Error, Result, ok, err, plan_validation_error, validation_error, value_error, ◌>>=◌, ◌>>◌,
  refuse_if,
}
use build_your_own_durable_a.Domain.Models.{
  TaskSpec, PlanSpec, validate_task_spec, validate_plan_spec,
}
use build_your_own_durable_a.Plan.Validate.{validate_plan}
use build_your_own_durable_a.Planner.Baseline.{baseline_tasks, baseline_plan}

-- `len(s.split())`, `not s.strip()` and `s.strip()`.
pub record Words : Type 0 where
  pub words : String → ℕ
  pub blank : String → Bool
  pub strip : String → String

-- The error that the loop answers with another attempt.
abbrev pub is_repairable : Error → Bool
is_repairable plan_validation_error = true
is_repairable validation_error = true
is_repairable _ = false

-- `validate_plan` with its default depth.
abbrev pub valid_plan : (String → ℕ) → PlanSpec → Result PlanSpec
valid_plan words plan = validate_plan words 20 plan

module _ (p : Words) where
  open p use {words, blank, strip}

  unfoldable pub build_tasks : List TaskSpec → Result (Unit {0})
  unfolding validate_task_spec
  build_tasks [] = ok tt
  build_tasks (t ∷ ts) = do _ ← validate_task_spec blank t; build_tasks ts

  -- `RuleBasedPlanner.plan`; the plan's ID is drawn on the way.
  unfoldable pub rule_based_plan : String → String → String → Result PlanSpec
  unfolding build_tasks validate_plan_spec validate_plan
  rule_based_plan plan_id run_id objective = do
    refuse_if (ltb (count (strip objective)) 3) plan_validation_error
    build_tasks baseline_tasks
    plan ← validate_plan_spec (baseline_plan plan_id run_id (strip objective))
    valid_plan words plan

  -- `tasks or plan.tasks`.
  abbrev pub tasks_or : Option (List TaskSpec) → List TaskSpec → List TaskSpec
  tasks_or none old = old
  tasks_or (some []) old = old
  tasks_or (some (t ∷ ts)) old = t ∷ ts

  -- `RuleBasedPlanner.revise`.
  unfoldable pub revise : String → PlanSpec → String → Option (List TaskSpec) → Result PlanSpec
  unfolding validate_plan
  revise plan_id plan reason tasks = do
    refuse_if (blank reason) plan_validation_error
    valid_plan words (record plan {
      plan_id = plan_id;
      version = plan.version + 1;
      tasks = tasks_or tasks plan.tasks;
      previous_plan_id = some plan.plan_id;
      revision_reason = reason;
    })

  -- The test of a candidate.
  unfoldable pub accept_candidate : String → PlanSpec → Result PlanSpec
  unfolding validate_plan
  accept_candidate run_id candidate = do
    refuse_if (not (candidate.run_id == run_id)) plan_validation_error
    valid_plan words candidate

  -- One attempt: `completion n` is the model's answer to the attempt `n`.
  unfoldable pub attempt_plan : (ℕ → Result PlanSpec) → String → ℕ → Result PlanSpec
  unfolding accept_candidate
  attempt_plan completion run_id attempt = do
    candidate ← completion attempt
    accept_candidate run_id candidate

  -- The loop over the attempts; `fallback` is what follows it.
  unfoldable pub repair_loop :
      (ℕ → Result PlanSpec) → String → Result PlanSpec → ℕ → ℕ → Result PlanSpec
  unfolding attempt_plan
  repair_loop completion run_id fallback zero attempt = fallback
  repair_loop completion run_id fallback (suc left) attempt =
      let next = repair_loop completion run_id fallback left (attempt + 1) in
      elim (attempt_plan completion run_id attempt) [
        | ok plan ↦ ok plan
        | err e ↦ if is_repairable e then next else err e
      ]

  -- `LLMAssistedPlanner.__init__` and `plan`.
  unfoldable pub llm_assisted_plan :
      (ℕ → Result PlanSpec) → ℕ → String → String → String → Result PlanSpec
  unfolding repair_loop rule_based_plan
  llm_assisted_plan completion maximum_repairs plan_id run_id objective = do
    refuse_if (ltb 5 maximum_repairs) value_error
    repair_loop completion run_id (rule_based_plan plan_id run_id objective) (maximum_repairs + 1) 0
