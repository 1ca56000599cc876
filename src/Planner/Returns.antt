-- ===== src/Planner/Returns.antt =====
-- The rule-based plan is always there, so that the assisted planner comes to a plan unless the model's
-- service itself fails.
use Prim.Native.Char.{code}
use Prim.Native.String.{String, count, ◌∷◌ as with_char, [] as empty_text}
use build_your_own_durable_a.Common.{
  ℕ, ◌≡◌, refl, Bool, true, false, not, ◌&&◌, ◌||◌, List, [], ◌∷◌, ltb, leb, eqb, length, elem,
  subset, disjoint, All, any, all, distinct, arith,
}
use build_your_own_durable_a.Common.Result.{ok}
use build_your_own_durable_a.Common.Dict.{put}
use build_your_own_durable_a.Common.Sort.{sort, insert_sorted, text_leb}
use build_your_own_durable_a.Domain.Models.{
  TaskSpec, validate_task_spec, validate_plan_spec, unique_ordered_values, is_id_text, within,
}
use build_your_own_durable_a.Plan.Order.{
  topological_order, task_ids, build_graph, add_edges, drain, relax, assign_levels, dependencies_of,
}
use build_your_own_durable_a.Plan.Validate.{
  validate_plan, check_tasks, check_task, serial_only_permissions,
}
use build_your_own_durable_a.Planner.Baseline.{baseline_tasks, baseline_plan}
use build_your_own_durable_a.Planner.{Words, build_tasks, rule_based_plan}

-- The text begins with an ASCII letter.
abbrev pub has_letter : String → Bool
has_letter empty_text = false
has_letter (with_char c s) =
    (leb 65 (code c) && leb (code c) 90) || (leb 97 (code c) && leb (code c) 122)

all_plain :
    (blank : String → Bool) (xs : List String)
    → ((s : String) → has_letter s ≡ true → blank s ≡ false)
    → all has_letter xs ≡ true
    → any blank xs ≡ false
all_plain blank [] f h = refl
all_plain blank (x ∷ xs) f h =
    let here = f x (ground arith) in ground (arith, here, all_plain blank xs f)

unique_plain :
    (blank : String → Bool) (xs : List String)
    → ((s : String) → has_letter s ≡ true → blank s ≡ false)
    → (distinct xs && all has_letter xs) ≡ true
    → unique_ordered_values blank xs ≡ true
unfolding unique_ordered_values
unique_plain blank xs f h = let plain = all_plain blank xs f (ground arith) in ground (arith, plain)

-- The tests of a task that do not depend on `str.strip`, and texts that are clearly not blank.
abbrev plain_tests : TaskSpec → List Bool
plain_tests s =
    (is_id_text s.task_id && within 1 128 (count s.task_id))
    ∷ within 3 200 (count s.title)
    ∷ within 3 10000 (count s.description)
    ∷ leb s.priority 10000
    ∷ within 1 20 s.maximum_attempts
    ∷ not (eqb (length s.expected_outputs) 0)
    ∷ not (eqb (length s.acceptance_criteria) 0)
    ∷ not (eqb (length s.required_evidence) 0)
    ∷ within 128 1000000 s.estimated_context_tokens
    ∷ (distinct s.dependencies && all has_letter s.dependencies)
    ∷ (distinct s.input_references && all has_letter s.input_references)
    ∷ (distinct s.expected_outputs && all has_letter s.expected_outputs)
    ∷ (distinct s.acceptance_criteria && all has_letter s.acceptance_criteria)
    ∷ (distinct s.required_evidence && all has_letter s.required_evidence)
    ∷ (distinct s.required_tools && all has_letter s.required_tools)
    ∷ not (elem s.task_id s.dependencies)
    ∷ []

abbrev is_plain : TaskSpec → Bool
is_plain s = all (λ b. b) (plain_tests s)

all-All : (bs : List Bool) → all (λ b. b) bs ≡ true → All (λ b. b ≡ true) bs
all-All [] h = tt
all-All (b ∷ bs) h = (ground arith, all-All bs (ground arith))

not-true : (b : Bool) → not b ≡ true → b ≡ false
not-true b h = ground arith

validate_task_spec-plain :
    (blank : String → Bool) (s : TaskSpec)
    → ((t : String) → has_letter t ≡ true → blank t ≡ false)
    → is_plain s ≡ true
    → validate_task_spec blank s ≡ ok s
unfolding validate_task_spec
validate_task_spec-plain blank s f h =
    let (
      id_ok,
      (
        title,
        (
          description,
          (
            priority,
            (
              attempts,
              (
                outputs,
                (
                  criteria,
                  (
                    evidence,
                    (
                      tokens,
                      (
                        dependencies,
                        (references, (out_ok, (crit_ok, (evid_ok, (tools, (own, _)))))),
                      ),
                    ),
                  ),
                ),
              ),
            ),
          ),
        ),
      ),
    ) =
      all-All (plain_tests s) h in
    rw
      (
        id_ok,
        title,
        description,
        priority,
        attempts,
        not-true _ outputs,
        not-true _ criteria,
        not-true _ evidence,
        tokens,
        unique_plain blank s.dependencies f dependencies,
        unique_plain blank s.input_references f references,
        unique_plain blank s.expected_outputs f out_ok,
        unique_plain blank s.acceptance_criteria f crit_ok,
        unique_plain blank s.required_evidence f evid_ok,
        unique_plain blank s.required_tools f tools,
        not-true _ own,
      )
      refl

build_tasks-plain :
    (p : Words) (ts : List TaskSpec)
    → ((t : String) → has_letter t ≡ true → p.blank t ≡ false)
    → All (λ t. is_plain t ≡ true) ts
    → build_tasks p ts ≡ ok tt
unfolding build_tasks
build_tasks-plain p [] f h = refl
build_tasks-plain p (t ∷ ts) f h =
    let here = validate_task_spec-plain p.blank t f h.0 in
    let later = build_tasks-plain p ts f h.1 in rw (here, later) refl

baseline-plain : All (λ t. is_plain t ≡ true) baseline_tasks
baseline-plain = (refl, (refl, (refl, (refl, (refl, tt)))))

-- A description of three words or more.
abbrev pub is_long : (String → ℕ) → TaskSpec → Bool
is_long words t = not (ltb (words t.description) 3)

-- The tests of `validate_plan` on one task that do not depend on `str.split`.
abbrev is_fit : List String → TaskSpec → Bool
is_fit ids t =
    subset t.dependencies ids
    && not (ltb 250000 t.estimated_context_tokens)
    && not (t.parallelizable && not (disjoint t.tool_permissions serial_only_permissions))

check_tasks-fit :
    (words : String → ℕ) (ids : List String) (ts : List TaskSpec)
    → all (is_long words) ts ≡ true
    → all (is_fit ids) ts ≡ true
    → check_tasks words ids ts ≡ ok tt
unfolding check_tasks check_task
check_tasks-fit words ids [] l f = refl
check_tasks-fit words ids (t ∷ ts) l f =
    let later = check_tasks-fit words ids ts (ground arith) (ground arith) in ground (arith, later)

baseline_valid :
    (words : String → ℕ) (plan_id run_id goal : String)
    → all (is_long words) baseline_tasks ≡ true
    → validate_plan words 20 (baseline_plan plan_id run_id goal)
      ≡ ok (baseline_plan plan_id run_id goal)
unfolding validate_plan topological_order build_graph add_edges drain relax sort insert_sorted
    text_leb assign_levels dependencies_of put
baseline_valid words plan_id run_id goal h =
    rw (check_tasks-fit words (task_ids baseline_tasks) baseline_tasks h refl) refl

-- For an objective of 3 to 20000 characters, as far as `str.strip` leaves no text empty that begins
-- with a letter and `str.split` finds three words in each of the baseline's descriptions, the
-- rule-based plan is there.
pub rule_based_plan_returns :
    (p : Words) (plan_id run_id objective : String)
    → ((t : String) → has_letter t ≡ true → p.blank t ≡ false)
    → all (is_long p.words) baseline_tasks ≡ true
    → within 3 20000 (count (p.strip objective)) ≡ true
    → rule_based_plan p plan_id run_id objective
      ≡ ok (baseline_plan plan_id run_id (p.strip objective))
unfolding rule_based_plan validate_plan_spec
rule_based_plan_returns p plan_id run_id objective f l n =
    let goal = p.strip objective in
    let long : ltb (count goal) 3 ≡ false = ground arith in
    rw
      (
        long,
        build_tasks-plain p baseline_tasks f baseline-plain,
        n,
        baseline_valid p.words plan_id run_id goal l,
      )
      refl
