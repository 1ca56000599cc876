-- ===== src/Orchestrator/Attempts.antt =====
-- orchestration/orchestrator.py: attempts and the bound `maximum_attempts`, and the states that a
-- failure may leave.
use build_your_own_durable_a.Common.{
  ℕ, ◌+◌, ◌≤◌, ◌<◌, ◌≡◌, ◌∙◌, ◌↔◌, inl, inr, String, true, false, some, arith, Bool-cases,
}
use build_your_own_durable_a.Common.Result.{ok, err, validation_error, retryable}
use build_your_own_durable_a.Domain.Enums.{TaskState, FailurePolicy}
use build_your_own_durable_a.Domain.Models.{TaskRecord, validate_task_record}
use build_your_own_durable_a.Domain.StateMachine.{transition_task}
use build_your_own_durable_a.Store.{Store, pk_of, read_task}
use build_your_own_durable_a.Orchestrator.{
  Failure, make_ready, start_task, fail_task, target, requires_review, will_retry, should_retry,
}
use build_your_own_durable_a.Orchestrator.Committed.{
  fail_task-eq-ok, make_ready-eq-ok, start_task-eq-ok,
}

-- When an attempt may follow.
abbrev pub MayRetry : ℕ → Failure → Type 0
MayRetry retries f =
    (f.force_terminal ≡ false)
    × (f.task.spec.failure_policy ≡ FailurePolicy.retry)
    × (retryable f.error ≡ true)
    × (1 ≤ f.task.attempt_count)
    × (f.task.attempt_count < retries)
    × (f.task.attempt_count < f.task.spec.maximum_attempts)

target_waiting :
    (retries : ℕ) (f : Failure)
    → (target retries f ≡ TaskState.waiting)
      ↔ ((f.task.spec.failure_policy ≡ FailurePolicy.manual_review) × (f.force_terminal ≡ false))
unfolding target requires_review
target_waiting retries f = elim (Bool-cases (will_retry retries f)) [
  | inl w ↦ ground arith
  | inr n ↦ ground arith
]

target_retryable :
    (retries : ℕ) (f : Failure)
    → (target retries f ≡ TaskState.failed_retryable) ↔ (will_retry retries f ≡ true)
unfolding target requires_review will_retry
target_retryable retries f = ground arith

will_retry_lem : (retries : ℕ) (f : Failure) → (will_retry retries f ≡ true) ↔ MayRetry retries f
unfolding will_retry should_retry
will_retry_lem retries f = ground arith

pub target_accepted :
    (retries : ℕ) (f : Failure)
    → f.task.state ≡ TaskState.running
    → transition_task f.task.state (target retries f) ≡ ok (target retries f)
unfolding target transition_task
target_accepted retries f h = ground arith

-- A failure of a running task always has a transition. It waits for review exactly under that policy,
-- and is retried exactly if its policy, its error, the settings and the attempts left allow it, unless
-- the failure is forced to be terminal.
pub target_lem :
    (retries : ℕ) (f : Failure)
    → f.task.state ≡ TaskState.running
    → (transition_task f.task.state (target retries f) ≡ ok (target retries f))
      × ((target retries f ≡ TaskState.waiting) ↔ (
          (f.task.spec.failure_policy ≡ FailurePolicy.manual_review) × (f.force_terminal ≡ false)))
      × ((target retries f ≡ TaskState.failed_retryable) ↔ MayRetry retries f)
target_lem retries f h =
    let (from, to) = target_retryable retries f in
    let (out, in_again) = will_retry_lem retries f in
    (
      target_accepted retries f h,
      target_waiting retries f,
      (λ e. out (from e), λ m. to (in_again m)),
    )

read_in_bound :
    (pk : String) (s : Store) (t : TaskRecord)
    → s.tasks pk ≡ some t
    → t.attempt_count ≤ t.spec.maximum_attempts
    → 1 ≤ t.version
    → read_task pk s ≡ ok t
unfolding read_task validate_task_record
read_in_bound pk s t e b v = ground arith

read_past_bound :
    (pk : String) (s : Store) (t : TaskRecord)
    → s.tasks pk ≡ some t
    → t.spec.maximum_attempts < t.attempt_count
    → read_task pk s ≡ err validation_error
unfolding read_task validate_task_record
read_past_bound pk s t e b = ground arith

-- A failed task that is made ready and started again, each step in the store that the last one left.
record Restarted (retries : ℕ) (f : Failure) (t1 : TaskRecord) (s3 : Store) : Type 0 where
  new : TaskRecord
  state : t1.state ≡ target retries f
  at_pk : s3.tasks (pk_of f.task) ≡ some new
  spec : new.spec ≡ f.task.spec
  count : new.attempt_count ≡ f.task.attempt_count + 1
  version : 1 ≤ new.version

module _ (retries : ℕ) (f : Failure) (row t1 t2 t3 : TaskRecord) (a : String) (s s1 s2 s3 : Store)
    (r : f.task.state ≡ TaskState.running) (old : s.tasks (pk_of f.task) ≡ some row)
    (spec : row.spec ≡ f.task.spec) (h1 : fail_task retries f s ≡ (ok t1, s1))
    (h2 : make_ready t1 s1 ≡ (ok t2, s2)) (h3 : start_task t2 s2 ≡ (ok (t3, a), s3)) where
  restart : Restarted retries f t1 s3
  restart =
      let failed = fail_task-eq-ok retries f s s1 t1 h1 (target_accepted retries f r) in
      let (count, pk, (row1, old1, (row2, new2, same))) = make_ready-eq-ok t1 t2 s1 s2 h2 in
      let (row3, old3, (new, stored, same3, count3, one)) = start_task-eq-ok t2 t3 a s2 s3 h3 in
      let pk' : pk_of t2 ≡ pk_of f.task = pk ∙ failed.pk in
      let first : row1 ≡ failed.new = cc (old1, failed.stored, failed.pk) in
      let second : row3 ≡ row2 = cc (old3, new2, pk) in
      let known : failed.row ≡ row = cc (failed.old, old) in
      record {
        new = new;
        state = failed.state;
        at_pk = cc (stored, pk');
        spec = cc (same3, second, same, first, failed.same_spec, known, spec);
        count = cc (count3, count, failed.attempts);
        version = one;
      }

  -- A retried task that is made ready and started again has one attempt more, and its row can be
  -- read.
  pub retry_stays_readable :
      t1.state ≡ TaskState.failed_retryable
      → (new : TaskRecord) × (read_task (pk_of f.task) s3 ≡ ok new)
        × (new.attempt_count ≡ f.task.attempt_count + 1)
  retry_stays_readable retry =
      let t = restart in
      let w = (target_retryable retries f).0 (cc (retry, t.state)) in
      let (_, _, _, _, _, below) = (will_retry_lem retries f).0 w in
      (
        t.new,
        read_in_bound (pk_of f.task) s3 t.new t.at_pk (rw (t.spec, t.count) (omega (arith, below)))
            t.version,
        t.count,
      )

  -- A task that failed under MANUAL_REVIEW at its last attempt, and that was made ready and started
  -- again, cannot be read.
  pub review_unreadable :
      t1.state ≡ TaskState.waiting
      → f.task.attempt_count ≡ f.task.spec.maximum_attempts
      → read_task (pk_of f.task) s3 ≡ err validation_error
  review_unreadable review last =
      let t = restart in
      read_past_bound (pk_of f.task) s3 t.new t.at_pk (rw (t.spec, t.count) (omega (arith, last)))
