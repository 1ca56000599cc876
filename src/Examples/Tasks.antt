-- ===== src/Examples/Tasks.antt =====
-- Tasks that become ready, fail, are retried, reviewed, recovered and cancelled.
use build_your_own_durable_a.Common.{
  String, ◌≡◌, refl, ◌↔◌, true, false, none, List, [], ◌∷◌, Any, any, elem, ltb, if◌then◌else◌,
}
use build_your_own_durable_a.Common.Result.{
  Result, ok, err, concurrency_conflict_error, validation_error, rate_limit_error, retryable,
}
use build_your_own_durable_a.Common.Sort.{sort, IsSorted}
use build_your_own_durable_a.Common.Table.{insert, empty}
use build_your_own_durable_a.Domain.Enums.{TaskState, FailurePolicy}
use build_your_own_durable_a.Domain.Models.{RunRecord, TaskRecord}
use build_your_own_durable_a.Domain.StateMachine.{transition_task}
use build_your_own_durable_a.Plan.Ready.{
  record_of, dependencies_succeeded, select_ready, ready_tasks, IsReady, NoLater, ready_tasks_lem,
}
use build_your_own_durable_a.Store.{
  Store, pk_of, read_task, update_run, update_task, finish_task_attempt,
  update_task_and_finish_attempt, is_open_for,
}
use build_your_own_durable_a.Store.Versions.{attempt_closes_once}
use build_your_own_durable_a.Orchestrator.{Failure, make_ready, start_task, fail_task, target}
use build_your_own_durable_a.Orchestrator.Attempts.{MayRetry, target_lem, retry_stays_readable}
use build_your_own_durable_a.Orchestrator.Review.{review_passes_bound}
use build_your_own_durable_a.Orchestrator.Handlers.{blocked_by}
use build_your_own_durable_a.Orchestrator.Skipped.{Blocked, blocked_by_lem}
use build_your_own_durable_a.Orchestrator.Settled.{Cancels, cancel_tasks_settles}
use build_your_own_durable_a.Recovery.{recover_abandoned_task}
use build_your_own_durable_a.Recovery.Tasks.{recover_abandoned_task_lem}
use build_your_own_durable_a.Examples.Data.{spec_of, task_of, run, store_with}

abbrev got : {A : Type 0} → A → Result A → A
got a (ok b) = b
got a (err _) = a

abbrev first_task : TaskRecord
first_task = task_of (spec_of "a" [] FailurePolicy.retry true) TaskState.succeeded 1

abbrev second_task : TaskRecord
second_task = task_of (spec_of "b" ("a" ∷ []) FailurePolicy.retry true) TaskState.pending 0

abbrev records : List TaskRecord
records = first_task ∷ second_task ∷ []

ready_tasks_lem_example :
    (Any (λ u. u ≡ second_task) (second_task ∷ [])
      ↔ (Any (λ u. u ≡ second_task) records × IsReady records second_task))
    × IsSorted NoLater (second_task ∷ [])
unfolding ready_tasks select_ready dependencies_succeeded record_of sort
ready_tasks_lem_example = ready_tasks_lem records (second_task ∷ []) second_task refl

blocked_by_lem_example : (elem "b" (blocked_by records "a") ≡ true) ↔ Blocked records "a" "b"
blocked_by_lem_example = blocked_by_lem records "a" "b"

-- A task that has succeeded and one that is ready, both as they were read.
abbrev live_task : TaskRecord
live_task = task_of (spec_of "b" ("a" ∷ []) FailurePolicy.retry true) TaskState.ready 0

abbrev both_stored : Store
both_stored = record (store_with live_task) {
  tasks = insert (pk_of first_task) first_task (insert (pk_of live_task) live_task empty);
}

cancel_tasks_settles_example : Cancels (first_task ∷ live_task ∷ []) both_stored
unfolding insert
cancel_tasks_settles_example = cancel_tasks_settles (first_task ∷ live_task ∷ []) both_stored refl (
  record { row = first_task; there = refl; version = refl; state = refl },
  (record { row = live_task; there = refl; version = refl; state = refl }, tt),
)

-- A running task, at its second attempt under RETRY and at its last under MANUAL_REVIEW.
abbrev retried : TaskRecord
retried = task_of (spec_of "a" [] FailurePolicy.retry true) TaskState.running 2

abbrev reviewed : TaskRecord
reviewed = task_of (spec_of "a" [] FailurePolicy.manual_review true) TaskState.running 3

abbrev failure_of : TaskRecord → Failure
failure_of t = record {
  task = t;
  attempt_id = "attempt";
  error = rate_limit_error;
  force_terminal = false;
}

target_lem_example :
    (transition_task TaskState.running (target 3 (failure_of retried))
      ≡ ok (target 3 (failure_of retried)))
    × ((target 3 (failure_of retried) ≡ TaskState.waiting)
        ↔ ((FailurePolicy.retry ≡ FailurePolicy.manual_review) × (false ≡ false)))
    × ((target 3 (failure_of retried) ≡ TaskState.failed_retryable)
        ↔ MayRetry 3 (failure_of retried))
target_lem_example = target_lem 3 (failure_of retried) refl

abbrev failed : TaskRecord → Result TaskRecord × Store
failed t = fail_task 3 (failure_of t) (store_with t)

abbrev ready_again : TaskRecord → Result TaskRecord × Store
ready_again t = make_ready (got t (failed t).0) (failed t).1

abbrev started : TaskRecord → Result (TaskRecord × String) × Store
started t = start_task (got t (ready_again t).0) (ready_again t).1

retry_stays_readable_example :
    (new : TaskRecord) × (read_task (pk_of retried) (started retried).1 ≡ ok new)
    × (new.attempt_count ≡ 3)
unfolding fail_task make_ready start_task insert transition_task target retryable
retry_stays_readable_example =
    retry_stays_readable 3 (failure_of retried) retried (got retried (failed retried).0)
      (got retried (ready_again retried).0) (got (retried, "") (started retried).0).0
      (got (retried, "") (started retried).0).1 (store_with retried) (failed retried).1
      (ready_again retried).1 (started retried).1 refl refl refl refl refl refl refl

review_passes_bound_example :
    (t2 : TaskRecord) × (s2 : Store) × (t3 : TaskRecord) × (a : String) × (s3 : Store) × (make_ready
        (got reviewed (failed reviewed).0)
        (failed reviewed).1
      ≡ (ok t2, s2))
    × (start_task t2 s2 ≡ (ok (t3, a), s3))
    × (read_task (pk_of reviewed) s3 ≡ err validation_error)
unfolding fail_task insert transition_task target retryable
review_passes_bound_example =
    review_passes_bound 3 (failure_of reviewed) reviewed (got reviewed (failed reviewed).0)
      (store_with reviewed) (failed reviewed).1 refl refl refl refl refl refl refl refl

abbrev recovered : Result TaskRecord × Store
recovered = recover_abandoned_task retried (store_with retried)

recover_abandoned_task_lem_example :
    ((got retried recovered.0).state
      ≡ (if ltb 2 3 then TaskState.ready else TaskState.failed_terminal))
    × ((got retried recovered.0).attempt_count ≡ 2)
    × (any (is_open_for "run" "a") recovered.1.attempts ≡ false)
unfolding recover_abandoned_task insert transition_task
recover_abandoned_task_lem_example =
    recover_abandoned_task_lem retried (got retried recovered.0) (store_with retried) recovered.1
      refl refl

abbrev run_written : RunRecord × Store
run_written = got (run, store_with retried) (update_run run 4 (store_with retried))

abbrev task_written : TaskRecord × Store
task_written = got (retried, store_with retried) (update_task retried 1 (store_with retried))

abbrev closed : TaskRecord × Store
closed =
    got (retried, store_with retried)
      (update_task_and_finish_attempt retried 1 "attempt" TaskState.succeeded none
        (store_with retried))

attempt_closes_once_example :
    (update_task_and_finish_attempt retried 2 "attempt" TaskState.failed_terminal none closed.1
      ≡ err concurrency_conflict_error)
    × (finish_task_attempt "attempt" TaskState.failed_terminal none closed.1
        ≡ err concurrency_conflict_error)
unfolding update_task_and_finish_attempt insert
attempt_closes_once_example =
    attempt_closes_once (store_with retried) closed.1 "attempt" TaskState.succeeded
      TaskState.failed_terminal none none retried closed.0 retried 1 2 refl
