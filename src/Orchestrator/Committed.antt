-- ===== src/Orchestrator/Committed.antt =====
-- orchestration/orchestrator.py: what a failure, a promotion to READY and a start leave in the store
-- once they have committed.
use build_your_own_durable_a.Common.{ℕ, ◌+◌, ◌≤◌, ◌≡◌, ◌∙◌, ap, refl, inl, inr, String, some, arith}
use build_your_own_durable_a.Common.Result.{ok, Result-cases}
use build_your_own_durable_a.Common.Table.{insert}
use build_your_own_durable_a.Domain.Enums.{TaskState}
use build_your_own_durable_a.Domain.Models.{TaskRecord}
use build_your_own_durable_a.Domain.StateMachine.{transition_task}
use build_your_own_durable_a.Store.{
  Store, pk_of, next_id, with_error, task_values, update_task, start_task_attempt,
  update_task_and_finish_attempt, record_error, publish,
}
use build_your_own_durable_a.Store.Writes.{
  Wrote-stored, update_task-eq-ok, update_task_and_finish_attempt-eq-ok, start_task_attempt-tasks,
}
use build_your_own_durable_a.Orchestrator.{
  Failure, make_ready, failed_task, started_task, start_task, fail_task, target,
}

-- What a committed failure leaves: the task in the target state with the count and the spec it had.
pub record Failed (retries : ℕ) (f : Failure) (task : TaskRecord) (s s' : Store) : Type 0 where
  pub state : task.state ≡ target retries f
  pub attempts : task.attempt_count ≡ f.task.attempt_count
  pub spec : task.spec ≡ f.task.spec
  pub pk : pk_of task ≡ pk_of f.task
  pub version : task.version ≡ f.task.version + 1
  pub row : TaskRecord
  pub old : s.tasks (pk_of f.task) ≡ some row
  pub new : TaskRecord
  pub stored : s'.tasks (pk_of f.task) ≡ some new
  pub same_spec : new.spec ≡ row.spec
  pub run_id : task.run_id ≡ f.task.run_id
  pub new_version : new.version ≡ f.task.version + 1

pub fail_task-eq-ok :
    (retries : ℕ) (f : Failure) (s s' : Store) (task : TaskRecord)
    → fail_task retries f s ≡ (ok task, s')
    → transition_task f.task.state (target retries f) ≡ ok (target retries f)
    → Failed retries f task s s'
unfolding fail_task record_error publish insert
fail_task-eq-ok retries f s s' task h r =
    let written = failed_task f.task (target retries f) (target retries f) s.now (next_id s) in
    let s1 = with_error f.task.run_id (some f.task.spec.task_id) f.error s in
    elim (Result-cases (
      update_task_and_finish_attempt written f.task.version f.attempt_id (target retries f)
        (some (next_id s)) s1)) [
          | inl (x, e) ↦ absurd (ground (arith, e, r))
          | inr ((t, s2), e) ↦
              let (same, wrote) =
                update_task_and_finish_attempt-eq-ok written t f.task.version f.attempt_id
                  (target retries f) (some (next_id s)) s1 s2 e in
              let kept : task ≡ t = ground (arith, e, r) in
              let left : s'.tasks ≡ s2.tasks = ground (arith, e, r) in
              record {
                state = cc (kept, same);
                attempts = cc (kept, same);
                spec = cc (kept, same);
                pk = cc (kept, same);
                version = cc (kept, same);
                row = wrote.row;
                old = wrote.old;
                new = task_values written f.task.version wrote.row;
                stored = ap (λ u. u (pk_of f.task)) left ∙ Wrote-stored wrote;
                same_spec = refl;
                run_id = cc (kept, same);
                new_version = refl;
              }
        ]

pub make_ready-eq-ok :
    (task task' : TaskRecord) (s s' : Store)
    → make_ready task s ≡ (ok task', s')
    → (task'.attempt_count ≡ task.attempt_count)
      × (pk_of task' ≡ pk_of task)
      × ((row : TaskRecord) × (s.tasks (pk_of task) ≡ some row)
          × ((new : TaskRecord) × (s'.tasks (pk_of task) ≡ some new) × (new.spec ≡ row.spec)))
unfolding make_ready
make_ready-eq-ok task task' s s' h =
    elim (Result-cases (transition_task task.state TaskState.ready)) [
      | inl (x, e) ↦ absurd (ground (arith, e))
      | inr (state, e) ↦
          elim (Result-cases (update_task (record task { state = state }) task.version s)) [
            | inl (x, q) ↦ absurd (ground (arith, e, q))
            | inr ((t, s1), q) ↦
                let (same, w, _) =
                  update_task-eq-ok (record task { state = state }) t task.version s s1 q in
                let kept : task' ≡ t = ground (arith, e, q) in
                let left : s'.tasks ≡ s1.tasks = ground (arith, e, q) in
                (
                  cc (kept, same),
                  cc (kept, same),
                  (
                    w.row,
                    w.old,
                    (
                      task_values (record task { state = state }) task.version w.row,
                      ap (λ u. u (pk_of task)) left ∙ Wrote-stored w,
                      refl,
                    ),
                  ),
                )
          ]
    ]

pub start_task-eq-ok :
    (task task' : TaskRecord) (a : String) (s s' : Store)
    → start_task task s ≡ (ok (task', a), s')
    → (row : TaskRecord) × (s.tasks (pk_of task) ≡ some row)
      × ((new : TaskRecord) × (s'.tasks (pk_of task) ≡ some new)
          × (new.spec ≡ row.spec)
          × (new.attempt_count ≡ task.attempt_count + 1)
          × (1 ≤ new.version))
unfolding start_task publish
start_task-eq-ok task task' a s s' h =
    elim (Result-cases (transition_task task.state TaskState.running)) [
      | inl (x, e) ↦ absurd (ground (arith, e))
      | inr (state, e) ↦
          elim (Result-cases (update_task (started_task task state s.now) task.version s)) [
            | inl (x, q) ↦ absurd (ground (arith, e, q))
            | inr ((t, s1), q) ↦
                let (same, w, _) =
                  update_task-eq-ok (started_task task state s.now) t task.version s s1 q in
                elim (Result-cases
                  (start_task_attempt t.run_id t.spec.task_id t.attempt_count s1)) [
                    | inl (x, p) ↦ absurd (ground (arith, e, q, p))
                    | inr ((b, s2), p) ↦
                        let left : s'.tasks ≡ s2.tasks = ground (arith, e, q, p) in
                        let kept : s2.tasks ≡ s1.tasks =
                          start_task_attempt-tasks t.run_id t.spec.task_id t.attempt_count b s1 s2
                            p in
                        (
                          w.row,
                          w.old,
                          (
                            task_values (started_task task state s.now) task.version w.row,
                            ap (λ u. u (pk_of task)) (left ∙ kept) ∙ Wrote-stored w,
                            refl,
                            refl,
                            omega arith,
                          ),
                        )
                  ]
          ]
    ]
