-- ===== src/Orchestrator/Review.antt =====
-- orchestration/orchestrator.py: a task that waits for review after its last attempt.
use build_your_own_durable_a.Common.{
  ℕ, ◌+◌, ◌≡◌, ◌∙◌, ap, refl, String, false, ◌==◌, ◌&&◌, eqb, any, none, some, find, arith, inl,
  inr,
}
use build_your_own_durable_a.Common.Result.{ok, err, validation_error, Result-cases}
use build_your_own_durable_a.Common.Table.{insert, insert_self}
use build_your_own_durable_a.Domain.Enums.{TaskState}
use build_your_own_durable_a.Domain.Models.{TaskRecord}
use build_your_own_durable_a.Domain.StateMachine.{transition_task}
use build_your_own_durable_a.Store.{
  Store, TaskAttempt, Event, pk_of, task_values, read_task, update_task, start_task_attempt,
  publish,
}
use build_your_own_durable_a.Orchestrator.{Failure, make_ready, start_task, fail_task}
use build_your_own_durable_a.Orchestrator.Committed.{fail_task-eq-ok}
use build_your_own_durable_a.Orchestrator.Attempts.{review_unreadable, target_accepted}

-- A task that waits is stored in the version that it has.
record Waits (t row : TaskRecord) (s : Store) : Type 0 where
  there : s.tasks (pk_of t) ≡ some row
  version : row.version ≡ t.version
  state : t.state ≡ TaskState.waiting

make_ready_waiting :
    (t row : TaskRecord) (s : Store)
    → Waits t row s
    → make_ready t s ≡ (
      ok (record t { state = TaskState.ready; version = t.version + 1 }),
      record s {
        tasks =
            insert
              (pk_of t)
              (task_values (record t { state = TaskState.ready }) t.version row)
              s.tasks;
      },
    )
unfolding make_ready update_task transition_task
make_ready_waiting t row s w =
    let there = w.there in
    let version = w.version in let state = w.state in ground (arith, there, version, state)

-- A task that is ready, stored in the version that it has, whose next attempt is not on record, in a
-- store whose next identifiers are new.
record Starts (t row : TaskRecord) (s : Store) : Type 0 where
  there : s.tasks (pk_of t) ≡ some row
  version : row.version ≡ t.version
  state : t.state ≡ TaskState.ready
  no_attempt :
      any
        (λ (a : TaskAttempt).
          a.run_id == t.run_id
          && a.task_id == t.spec.task_id
          && eqb a.attempt_number (t.attempt_count + 1))
        s.attempts
      ≡ false
  no_event : find (λ (e : Event). e.event_id == s.identifiers 1) s.events ≡ none

start_task_ready :
    (t row : TaskRecord) (s : Store)
    → Starts t row s
    → (t' : TaskRecord) × (a : String) × (s' : Store) × (start_task t s ≡ (ok (t', a), s'))
unfolding start_task update_task transition_task start_task_attempt publish
start_task_ready t row s w =
    let there = w.there in
    let version = w.version in
    let state = w.state in
    let no_attempt = w.no_attempt in
    let no_event = w.no_event in
    elim (Result-cases (start_task t s).0) [
      | inl (x, e) ↦ absurd (ground (arith, e, there, version, state, no_attempt, no_event))
      | inr ((t', a), e) ↦ (t', a, (start_task t s).1, ap (λ q. (q, (start_task t s).1)) e)
    ]

-- A task that failed under MANUAL_REVIEW at its last attempt can be made ready and started again,
-- where the store has no attempt under the next number and its next identifier of an event is new;
-- the task is then beyond its bound, and its row can no longer be read.
pub review_passes_bound :
    (retries : ℕ) (f : Failure) (row t1 : TaskRecord) (s s1 : Store)
    → f.task.state ≡ TaskState.running
    → s.tasks (pk_of f.task) ≡ some row
    → row.spec ≡ f.task.spec
    → fail_task retries f s ≡ (ok t1, s1)
    → t1.state ≡ TaskState.waiting
    → f.task.attempt_count ≡ f.task.spec.maximum_attempts
    → any
        (λ (a : TaskAttempt).
          a.run_id == f.task.run_id
          && a.task_id == f.task.spec.task_id
          && eqb a.attempt_number (f.task.attempt_count + 1))
        s1.attempts
      ≡ false
    → find (λ (e : Event). e.event_id == s1.identifiers 1) s1.events ≡ none
    → (t2 : TaskRecord) × (s2 : Store) × (t3 : TaskRecord) × (a : String) × (s3 : Store)
      × (make_ready t1 s1 ≡ (ok t2, s2))
      × (start_task t2 s2 ≡ (ok (t3, a), s3))
      × (read_task (pk_of f.task) s3 ≡ err validation_error)
review_passes_bound retries f row t1 s s1 running old spec h waiting last free fresh =
    let failed = fail_task-eq-ok retries f s s1 t1 h (target_accepted retries f running) in
    let there : s1.tasks (pk_of t1) ≡ some failed.new = ap s1.tasks failed.pk ∙ failed.stored in
    let version : failed.new.version ≡ t1.version = cc (failed.new_version, failed.version) in
    let asked : TaskRecord = record t1 { state = TaskState.ready } in
    let t2 : TaskRecord = record asked { version = t1.version + 1 } in
    let stored : TaskRecord = task_values asked t1.version failed.new in
    let s2 : Store = record s1 { tasks = insert (pk_of t1) stored s1.tasks } in
    let made : make_ready t1 s1 ≡ (ok t2, s2) =
      make_ready_waiting t1 failed.new s1
        (record { there = there; version = version; state = waiting }) in
    let (t3, a, s3, started) = start_task_ready t2 stored s2 (record {
      there = insert_self (pk_of t1) stored s1.tasks;
      version = refl;
      state = refl;
      no_attempt = rw (failed.run_id, failed.spec, failed.attempts) free;
      no_event = fresh;
    }) in
    (
      t2,
      s2,
      t3,
      a,
      s3,
      made,
      started,
      review_unreadable retries f row t1 t2 t3 a s s1 s2 s3 running old spec h made started waiting
          last,
    )
