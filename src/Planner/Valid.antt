-- ===== src/Planner/Valid.antt =====
-- The plans that the planners return are valid, and the rule-based one is always there.
use Prim.Native.String.{count}
use build_your_own_durable_a.Common.{
  ℕ, zero, suc, ◌+◌, String, ◌≡◌, ap, ◌==◌, ltb, eq_iff, arith, Bool-cases, inl, inr,
}
use build_your_own_durable_a.Common.Result.{Result, ok, Result-cases}
use build_your_own_durable_a.Domain.Models.{PlanSpec, validate_plan_spec}
use build_your_own_durable_a.Plan.Order.{topological_order, task_ids}
use build_your_own_durable_a.Plan.Validate.{validate_plan, check_tasks}
use build_your_own_durable_a.Planner.Baseline.{baseline_tasks, baseline_plan}
use build_your_own_durable_a.Planner.{
  Words, is_repairable, build_tasks, rule_based_plan, accept_candidate, attempt_plan, repair_loop,
  llm_assisted_plan,
}

-- A plan for the run that `validate_plan` accepts.
pub record IsFor (words : String → ℕ) (run_id : String) (plan : PlanSpec) : Type 0 where
  pub own : plan.run_id ≡ run_id
  pub valid : validate_plan words 20 plan ≡ ok plan

-- `validate_plan` returns the plan it was given.
validate_plan-eq-ok :
    (words : String → ℕ) (depth : ℕ) (plan q : PlanSpec)
    → validate_plan words depth plan ≡ ok q
    → q ≡ plan
unfolding validate_plan
validate_plan-eq-ok words depth plan q h =
    elim (Result-cases (check_tasks words (task_ids plan.tasks) plan.tasks)) [
      | inl (x, c) ↦ absurd (ground (arith, c))
      | inr (done, c) ↦ elim (Result-cases (topological_order plan.tasks)) [
        | inl (x, t) ↦ absurd (ground (arith, c, t))
        | inr (ordered, t) ↦ ground (arith, c, t)
      ]
    ]

accept_candidate-IsFor :
    (p : Words) (run_id : String) (candidate plan : PlanSpec)
    → accept_candidate p run_id candidate ≡ ok plan
    → IsFor p.words run_id plan
unfolding accept_candidate
accept_candidate-IsFor p run_id candidate plan h = elim (Bool-cases (candidate.run_id == run_id)) [
  | inr b ↦ absurd (cc (rw b at h))
  | inl b ↦
      let checked : validate_plan p.words 20 candidate ≡ ok plan = rw b at h in
      let same = validate_plan-eq-ok p.words 20 candidate plan checked in
      rw same (record { own = (eq_iff candidate.run_id run_id).0 b; valid = cc (checked, same) })
]

validate_plan_spec-eq-ok : (plan q : PlanSpec) → validate_plan_spec plan ≡ ok q → q ≡ plan
unfolding validate_plan_spec
validate_plan_spec-eq-ok plan q h = ground arith

rule_based_plan-IsFor :
    (p : Words) (plan_id run_id objective : String) (plan : PlanSpec)
    → rule_based_plan p plan_id run_id objective ≡ ok plan
    → IsFor p.words run_id plan
unfolding rule_based_plan
rule_based_plan-IsFor p plan_id run_id objective plan h =
    let made = baseline_plan plan_id run_id (p.strip objective) in
    elim (Bool-cases (ltb (count (p.strip objective)) 3)) [
      | inl b ↦ absurd (cc (rw b at h))
      | inr b ↦ elim (Result-cases (build_tasks p baseline_tasks)) [
        | inl (x, t) ↦ absurd (cc (rw (b, t) at h))
        | inr (done, t) ↦ elim (Result-cases (validate_plan_spec made)) [
          | inl (x, v) ↦ absurd (cc (rw (b, t, v) at h))
          | inr (q, v) ↦
              let is_made = validate_plan_spec-eq-ok made q v in
              let checked : validate_plan p.words 20 q ≡ ok plan = rw (b, t, v) at h in
              let same = validate_plan-eq-ok p.words 20 q plan checked in
              rw same (record { own = ap (λ r. r.run_id) is_made; valid = cc (checked, same) })
        ]
      ]
    ]

attempt_plan-IsFor :
    (p : Words) (completion : ℕ → Result PlanSpec) (run_id : String) (attempt : ℕ) (plan : PlanSpec)
    → attempt_plan p completion run_id attempt ≡ ok plan
    → IsFor p.words run_id plan
unfolding attempt_plan
attempt_plan-IsFor p completion run_id attempt plan h = elim (Result-cases (completion attempt)) [
  | inl (x, c) ↦ absurd (cc (rw c at h))
  | inr (candidate, c) ↦ accept_candidate-IsFor p run_id candidate plan (rw c at h)
]

repair_loop-IsFor :
    (p : Words) (completion : ℕ → Result PlanSpec) (run_id : String) (fallback : Result PlanSpec)
    (left attempt : ℕ) (plan : PlanSpec)
    → ((q : PlanSpec) → fallback ≡ ok q → IsFor p.words run_id q)
    → repair_loop p completion run_id fallback left attempt ≡ ok plan
    → IsFor p.words run_id plan
unfolding repair_loop
repair_loop-IsFor p completion run_id fallback zero attempt plan f h = f plan h
repair_loop-IsFor p completion run_id fallback (suc left) attempt plan f h =
    let later = repair_loop-IsFor p completion run_id fallback left (attempt + 1) plan f in
    elim (Result-cases (attempt_plan p completion run_id attempt)) [
      | inl (x, a) ↦ elim (Bool-cases (is_repairable x)) [
        | inl r ↦ later (rw (repair_loop, a, r) at h)
        | inr r ↦ absurd (cc (rw (repair_loop, a, r) at h))
      ]
      | inr (q, a) ↦
          let out : ok q ≡ ok plan = rw (repair_loop, a) at h in
          let same : plan ≡ q = cc out in
          rw same (attempt_plan-IsFor p completion run_id attempt q a)
    ]

-- Whatever the language model answers, a plan that the assisted planner returns is one for the run
-- that was asked for, and `validate_plan` accepts it.
pub llm_assisted_plan_valid :
    (p : Words) (completion : ℕ → Result PlanSpec) (maximum_repairs : ℕ)
    (plan_id run_id objective : String) (plan : PlanSpec)
    → llm_assisted_plan p completion maximum_repairs plan_id run_id objective ≡ ok plan
    → (plan.run_id ≡ run_id) × (validate_plan p.words 20 plan ≡ ok plan)
unfolding llm_assisted_plan
llm_assisted_plan_valid p completion maximum_repairs plan_id run_id objective plan h =
    elim (Bool-cases (ltb 5 maximum_repairs)) [
      | inl b ↦ absurd (cc (rw b at h))
      | inr b ↦
          let out =
            repair_loop-IsFor p completion run_id (rule_based_plan p plan_id run_id objective)
              (maximum_repairs + 1) 0 plan (rule_based_plan-IsFor p plan_id run_id objective)
              (rw b at h) in
          (out.own, out.valid)
    ]
