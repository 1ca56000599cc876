-- ===== src/Orchestrator/Cancelled.antt =====
-- `_cancel` of orchestration/orchestrator.py: what its loop leaves of the tasks.
use build_your_own_durable_a.Common.{
  ℕ, suc, ◌≡◌, refl, ap, ◌⊎◌, inl, inr, true, false, some, List, [], ◌∷◌, length, All, arith,
  Bool-cases,
}
use build_your_own_durable_a.Common.Result.{ok, err, concurrency_conflict_error}
use build_your_own_durable_a.Domain.Enums.{TaskState}
use build_your_own_durable_a.Domain.Models.{TaskRecord}
use build_your_own_durable_a.Domain.StateMachine.{transition_task}
use build_your_own_durable_a.Store.{Store, cancel_task_and_open_attempts, update_task}
use build_your_own_durable_a.Orchestrator.Handlers.{cancel_tasks, is_settled}

pub can_cancel :
    (x : TaskState)
    → is_settled x ≡ false
    → transition_task x TaskState.cancelled ≡ ok TaskState.cancelled
unfolding transition_task
can_cancel x h = ground arith

cancel_cases :
    (t : TaskRecord) (n : ℕ) (s : Store)
    → (cancel_task_and_open_attempts t n s ≡ err concurrency_conflict_error)
      ⊎ ((t' : TaskRecord) × (s' : Store) × (cancel_task_and_open_attempts t n s ≡ ok (t', s'))
          × (t'.state ≡ t.state))
unfolding cancel_task_and_open_attempts update_task
cancel_cases t n s = ground arith

-- The loop ends with every task that it returns in a state that is final, or with a conflict.
pub cancel_tasks_lem :
    (ts : List TaskRecord) (s : Store)
    → ((cancel_tasks ts s).0 ≡ err concurrency_conflict_error)
      ⊎ ((ts' : List TaskRecord) × ((cancel_tasks ts s).0 ≡ ok ts')
          × All (λ t. is_settled t.state ≡ true) ts'
          × (length ts' ≡ length ts))
unfolding cancel_tasks
cancel_tasks_lem [] s = inr ([], refl, tt, refl)
cancel_tasks_lem (t ∷ ts) s = elim (Bool-cases (is_settled t.state)) [
  | inl settled ↦ elim (cancel_tasks_lem ts s) [
    | inl e ↦ inl (ground (arith, settled, e))
    | inr (done, e, all_settled, n) ↦
        inr (t ∷ done, ground (arith, settled, e), (settled, all_settled), ap suc n)
  ]
  | inr live ↦
      let go = can_cancel t.state live in
      elim (cancel_cases (record t { state = TaskState.cancelled; finished_at = some s.now })
        t.version s) [
          | inl x ↦ inl (ground (arith, live, go, x))
          | inr (t', s1, e, same) ↦ elim (cancel_tasks_lem ts s1) [
            | inl x ↦ inl (ground (arith, live, go, e, x))
            | inr (done, x, all_settled, n) ↦ inr (
              t' ∷ done,
              ground (arith, live, go, e, x),
              (ground (arith, same), all_settled),
              ap suc n,
            )
          ]
        ]
]
