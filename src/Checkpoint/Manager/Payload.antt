-- ===== src/Checkpoint/Manager/Payload.antt =====
-- The payload that `write` of checkpoints/manager.py builds passes the validator of
-- domain/checkpoint.py.
use build_your_own_durable_a.Common.{
  ◌≤◌, String, ◌≡◌, refl, Bool, true, not, List, [], ◌∷◌, subset, disjoint, distinct, arith,
}
use build_your_own_durable_a.Common.Dict.{
  Dict, put, keys, keys_where, distinct-put, elem-keys_where, keys_where-split, subset-intro,
  disjoint-intro,
}
use build_your_own_durable_a.Common.Sort.{sort, text_leb, elem-sort}
use build_your_own_durable_a.Common.Result.{ok}
use build_your_own_durable_a.Domain.Enums.{TaskState}
use build_your_own_durable_a.Domain.Models.{RunRecord, PlanSpec, TaskRecord}
use build_your_own_durable_a.Checkpoint.Envelope.{is_succeeded, validate_payload}
use build_your_own_durable_a.Checkpoint.Manager.{References, task_states_of, build_payload}

task_states_of-distinct :
    (tasks : List TaskRecord) (d : Dict TaskState)
    → distinct (keys d) ≡ true
    → distinct (keys (task_states_of tasks d)) ≡ true
task_states_of-distinct [] d h = h
task_states_of-distinct (t ∷ ts) d h =
    task_states_of-distinct ts (put t.spec.task_id t.state d) (distinct-put _ _ d h)

module _ (d : Dict TaskState) (h : distinct (keys d) ≡ true) where
  completed_disjoint :
      disjoint
        (sort text_leb (keys_where is_succeeded d))
        (sort text_leb (keys_where (λ s. not (is_succeeded s)) d))
      ≡ true
  completed_disjoint =
      disjoint-intro (sort text_leb (keys_where is_succeeded d))
        (sort text_leb (keys_where (λ s. not (is_succeeded s)) d))
        λ k e. rw elem-sort (keys_where-split is_succeeded k d h (rw elem-sort at e))

  sorted_known : (p : TaskState → Bool) → subset (sort text_leb (keys_where p d)) (keys d) ≡ true
  sorted_known p =
      subset-intro (sort text_leb (keys_where p d)) (keys d)
        λ k e. elem-keys_where p k d (rw elem-sort at e)

  sorted_same :
      (xs : List String)
      → (subset (sort text_leb xs) xs ≡ true) × (subset xs (sort text_leb xs) ≡ true)
  sorted_same xs = (
    subset-intro (sort text_leb xs) xs (λ k e. rw elem-sort at e),
    subset-intro xs (sort text_leb xs) (λ k e. rw elem-sort e),
  )

-- Whatever the tasks and references are, also with task IDs that repeat, the payload of a plan
-- whose version is at least 1 passes the payload's validator.
pub build_payload-valid :
    {J : Type 0} (run : RunRecord) (plan : PlanSpec) (tasks : List TaskRecord) (refs : References J)
    → 1 ≤ plan.version
    → validate_payload (build_payload run plan tasks refs) ≡ ok (build_payload run plan tasks refs)
unfolding validate_payload build_payload
build_payload-valid run plan tasks refs v =
    let d : Dict TaskState = task_states_of tasks [] in
    let h : distinct (keys d) ≡ true = task_states_of-distinct tasks [] refl in
    ground (
      arith,
      completed_disjoint d h,
      sorted_known d h is_succeeded,
      sorted_known d h (λ (s : TaskState). not (is_succeeded s)),
      sorted_same d h (keys_where is_succeeded d),
    )
