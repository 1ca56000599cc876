-- ===== src/Examples/Planners.antt =====
-- A language model whose first answer is for another run and that then answers with no valid JSON.
use Prim.Native.Char.{Char, code}
use Prim.Native.String.{String, ◌∷◌ as with_char, [] as empty_text}
use build_your_own_durable_a.Common.{ℕ, zero, suc, ◌≡◌, refl, Bool, true, ◌&&◌, eqb, if◌then◌else◌}
use build_your_own_durable_a.Common.Dict.{put}
use build_your_own_durable_a.Common.Sort.{sort, insert_sorted, text_leb}
use build_your_own_durable_a.Common.Result.{Result, ok, err, validation_error}
use build_your_own_durable_a.Domain.Models.{
  PlanSpec, validate_task_spec, validate_plan_spec, unique_ordered_values,
}
use build_your_own_durable_a.Plan.Order.{
  topological_order, build_graph, add_edges, drain, relax, assign_levels, dependencies_of,
}
use build_your_own_durable_a.Plan.Validate.{validate_plan, check_tasks, check_task}
use build_your_own_durable_a.Planner.Baseline.{baseline_plan}
use build_your_own_durable_a.Planner.{
  Words, build_tasks, rule_based_plan, accept_candidate, attempt_plan, repair_loop,
  llm_assisted_plan,
}
use build_your_own_durable_a.Planner.Valid.{llm_assisted_plan_valid}

abbrev is_space : Char → Bool
is_space c = eqb (code c) 32

-- The number of blanks and one: the words of a text whose words stand apart by one blank.
abbrev count_words : String → ℕ
count_words empty_text = 1
count_words (with_char c s) = let n = count_words s in if is_space c then suc n else n

abbrev all_spaces : String → Bool
all_spaces empty_text = true
all_spaces (with_char c s) = is_space c && all_spaces s

abbrev words : Words
words = record { words = count_words; blank = all_spaces; strip = λ s. s }

abbrev answers : ℕ → Result PlanSpec
answers zero = ok (baseline_plan "plan-0" "another run" "objective")
answers (suc n) = err validation_error

llm_assisted_plan_valid_example :
    ((baseline_plan "plan-1" "run" "objective").run_id ≡ "run")
    × (validate_plan count_words 20 (baseline_plan "plan-1" "run" "objective")
        ≡ ok (baseline_plan "plan-1" "run" "objective"))
unfolding llm_assisted_plan repair_loop attempt_plan accept_candidate rule_based_plan build_tasks
    validate_task_spec unique_ordered_values validate_plan_spec validate_plan check_tasks check_task
    topological_order build_graph add_edges drain relax sort insert_sorted text_leb assign_levels
    dependencies_of put
llm_assisted_plan_valid_example =
    llm_assisted_plan_valid words answers 2 "plan-1" "run" "objective"
      (baseline_plan "plan-1" "run" "objective") refl
