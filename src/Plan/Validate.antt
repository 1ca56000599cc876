-- ===== src/Plan/Validate.antt =====
-- domain/plan.py: `validate_plan`. `words` counts the words of a description, as `len(s.split())`.
use build_your_own_durable_a.Common.{
  ℕ, String, not, ◌&&◌, List, [], ◌∷◌, ltb, subset, disjoint, distinct,
}
use build_your_own_durable_a.Common.Result.{
  Result, ok, plan_validation_error, ◌>>=◌, ◌>>◌, refuse_if,
}
use build_your_own_durable_a.Domain.Models.{TaskSpec, PlanSpec}
use build_your_own_durable_a.Plan.Order.{task_ids, topological_order, assign_levels, greatest}

abbrev pub serial_only_permissions : List String
serial_only_permissions = "repository.write" ∷ "repository.patch" ∷ []

module _ (words : String → ℕ) where
  unfoldable pub check_task : List String → TaskSpec → Result (Unit {0})
  check_task ids t = do
    refuse_if (not (subset t.dependencies ids)) plan_validation_error
    refuse_if (ltb (words t.description) 3) plan_validation_error
    refuse_if (ltb 250000 t.estimated_context_tokens) plan_validation_error
    refuse_if (t.parallelizable && not (disjoint t.tool_permissions serial_only_permissions))
        plan_validation_error

  unfoldable pub check_tasks : List String → List TaskSpec → Result (Unit {0})
  unfolding check_task
  check_tasks ids [] = ok tt
  check_tasks ids (t ∷ ts) = do check_task ids t; check_tasks ids ts

  -- The depth of a task is its level in `parallel_batches` plus 1, so the greatest depth is the
  -- number of levels.
  unfoldable pub validate_plan : ℕ → PlanSpec → Result PlanSpec
  unfolding check_tasks
  validate_plan maximum_depth plan = do
    refuse_if (not (distinct (task_ids plan.tasks))) plan_validation_error
    check_tasks (task_ids plan.tasks) plan.tasks
    ordered ← topological_order plan.tasks
    let depths = assign_levels plan.tasks ordered []
    refuse_if (ltb maximum_depth (greatest depths)) plan_validation_error
    ok plan
