-- ===== src/Orchestrator.antt =====
-- orchestration/orchestrator.py: the choice of a batch, the start of an attempt, and what a failure
-- does to a task and to the run. The workers, the heartbeat, the context, the reports, the metrics and
-- the log are left out, and so is the checkpoint that ends each handler: Checkpoint/Manager.antt models
-- it.
pub mod Batch
pub mod Committed
pub mod Attempts
pub mod Review
pub mod Handlers
pub mod Skipped
pub mod Cancelled
pub mod Settled
pub mod Disposition
use build_your_own_durable_a.Common.{
  ℕ, ◌+◌, ◌-◌, min, String, Bool, true, false, not, ◌&&◌, ◌||◌, Option, none, some, List, [], ◌∷◌,
  leb, ltb, if◌then◌else◌,
}
use build_your_own_durable_a.Common.Exec.{Exec, pure, commit, lift, ◌>>=◌, ◌>>◌}
use build_your_own_durable_a.Common.Result.{Error, Result, ok, err, retryable}
use build_your_own_durable_a.Domain.Enums.{RunState, TaskState, FailurePolicy, run_state_eq}
use build_your_own_durable_a.Domain.Models.{TaskRecord}
use build_your_own_durable_a.Domain.StateMachine.{transition_run, transition_task}
use build_your_own_durable_a.Store.{
  Store, update_task, start_task_attempt, update_task_and_finish_attempt, record_error, publish,
}

abbrev pub parallel_prefix : ℕ → List TaskRecord → List TaskRecord
parallel_prefix room [] = []
parallel_prefix room (c ∷ cs) =
    let rest = parallel_prefix (room - 1) cs in
    if leb room 0 || not c.spec.parallelizable then [] else c ∷ rest

abbrev pub batch_limit : ℕ → ℕ → Option ℕ → ℕ
batch_limit concurrency executed none = concurrency
batch_limit concurrency executed (some maximum_tasks) = min concurrency (maximum_tasks - executed)

-- The caller has found a candidate; without one `candidates[0]` would raise, which is `none`.
unfoldable pub select_batch : ℕ → List TaskRecord → ℕ → Option ℕ → Option (List TaskRecord)
select_batch concurrency [] executed maximum_tasks = none
select_batch concurrency (first ∷ cs) executed maximum_tasks =
    let limit = batch_limit concurrency executed maximum_tasks in
    if leb limit 1 || not first.spec.parallelizable
    then some (first ∷ [])
    else some (parallel_prefix limit (first ∷ cs))

-- A round of the loop in `_start_batch`: the stored task, and its attempt.
-- The move to READY, of a candidate in `_promote_ready` and of a waiting task in a recovery.
unfoldable pub make_ready : TaskRecord → Exec Store TaskRecord
unfolding update_task
make_ready task = do
  state ← lift (transition_task task.state TaskState.ready)
  commit (update_task (record task { state = state }) task.version)

abbrev pub started_task : TaskRecord → TaskState → ℕ → TaskRecord
started_task candidate state now = record candidate {
  state = state;
  attempt_count = candidate.attempt_count + 1;
  started_at = some now;
}

unfoldable pub start_task : TaskRecord → Exec Store (TaskRecord × String)
unfolding update_task start_task_attempt publish
start_task candidate = do
  state ← lift (transition_task candidate.state TaskState.running)
  now ← (λ s. (ok s.now, s))
  task ← commit (update_task (started_task candidate state now) candidate.version)
  attempt_id ← commit (start_task_attempt task.run_id task.spec.task_id task.attempt_count)
  commit (publish task.run_id "task.started" (some task.spec.task_id))
  pure (task, attempt_id)

-- `RetryPolicy.should_retry` of domain/retry.py.
unfoldable pub should_retry : ℕ → ℕ → Bool → Bool
should_retry maximum_attempts attempt is_retryable =
    is_retryable && leb 1 attempt && ltb attempt maximum_attempts

-- (task, attempt_id, error, force_terminal); the task's index in the list is its place there.
pub record Failure : Type 0 where
  pub task : TaskRecord
  pub attempt_id : String
  pub error : Error
  pub force_terminal : Bool

abbrev is_manual_review : FailurePolicy → Bool
is_manual_review FailurePolicy.manual_review = true
is_manual_review _ = false

abbrev is_retry : FailurePolicy → Bool
is_retry FailurePolicy.retry = true
is_retry _ = false

abbrev is_skip_dependents : FailurePolicy → Bool
is_skip_dependents FailurePolicy.skip_dependents = true
is_skip_dependents _ = false

unfoldable pub requires_review : Failure → Bool
requires_review f = is_manual_review f.task.spec.failure_policy && not f.force_terminal

-- `retries` is the maximum of the settings' retry policy.
unfoldable pub will_retry : ℕ → Failure → Bool
unfolding should_retry
will_retry retries f =
    not f.force_terminal
    && is_retry f.task.spec.failure_policy
    && should_retry retries f.task.attempt_count (retryable f.error)
    && ltb f.task.attempt_count f.task.spec.maximum_attempts

unfoldable pub target : ℕ → Failure → TaskState
unfolding requires_review will_retry
target retries f =
    if requires_review f
    then TaskState.waiting
    else if will_retry retries f
    then TaskState.failed_retryable
    else TaskState.failed_terminal

abbrev ended_at : TaskState → ℕ → Option ℕ
ended_at TaskState.failed_terminal now = some now
ended_at _ now = none

abbrev failure_event : ℕ → Failure → String
failure_event retries f =
    if requires_review f
    then "manual_review.required"
    else if will_retry retries f
    then "task.failed_retryable"
    else "task.failed_terminal"

-- A round of `_handle_batch_failures`: the error, the task with its attempt, and the event.
abbrev pub failed_task : TaskRecord → TaskState → TaskState → ℕ → String → TaskRecord
failed_task task state left_in now error_id = record task {
  state = state;
  finished_at = ended_at left_in now;
  last_error_id = some error_id;
}

unfoldable pub fail_task : ℕ → Failure → Exec Store TaskRecord
unfolding record_error update_task_and_finish_attempt publish target
fail_task retries f = do
  error_id ← commit (record_error f.task.run_id (some f.task.spec.task_id) f.error)
  state ← lift (transition_task f.task.state (target retries f))
  now ← (λ s. (ok s.now, s))
  task ← commit (
      update_task_and_finish_attempt (failed_task f.task state (target retries f) now error_id)
        f.task.version f.attempt_id (target retries f) (some error_id))
  commit (publish task.run_id (failure_event retries f) (some task.spec.task_id))
  pure task

-- `continue_independent`, and the failure that fails the run.
unfoldable pub continues : ℕ → Failure → Bool
continues retries f =
    is_skip_dependents f.task.spec.failure_policy
    && not f.force_terminal
    && not (will_retry retries f)

unfoldable pub fails_run : ℕ → Failure → Bool
unfolding continues
fails_run retries f =
    not (continues retries f) && not (will_retry retries f) && not (requires_review f)

-- The run's state after every failure was committed.
unfoldable pub disposed : Bool → Bool → RunState → Result RunState
unfolding transition_run
disposed true manual_review current = transition_run current RunState.failed
disposed false false current = ok current
disposed false true current =
    elim (if run_state_eq current RunState.running
      then transition_run current RunState.pause_requested
      else ok current) [
        | err e ↦ err e
        | ok paused_from ↦ transition_run paused_from RunState.paused
      ]
