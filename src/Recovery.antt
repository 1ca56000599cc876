-- ===== src/Recovery.antt =====
-- recovery/manager.py: what `RecoveryManager.resume` does to each task and to the run's state, and
-- the circuit breaker. The checkpoint it starts from is that of Checkpoint/Manager.antt, and the tool
-- calls are those of Tools/Reconcile.antt; the repository's index and a plan's revision are left out.
pub mod Tasks
pub mod Breaker
use build_your_own_durable_a.Common.{
  ℕ, ◌+◌, String, Bool, true, false, not, Option, none, some, List, [], ◌∷◌, leb, ltb,
  if◌then◌else◌,
}
use build_your_own_durable_a.Common.Exec.{Exec, pure, commit, lift, ◌>>=◌, ◌>>◌}
use build_your_own_durable_a.Common.Result.{
  Result, ok, err, concurrency_conflict_error, provider_retryable_error,
}
use build_your_own_durable_a.Domain.Enums.{RunState, TaskState}
use build_your_own_durable_a.Domain.Models.{TaskRecord}
use build_your_own_durable_a.Domain.StateMachine.{transition_task}
use build_your_own_durable_a.Store.{
  Store, update_task, finish_open_task_attempts, record_error, publish,
}
use build_your_own_durable_a.Orchestrator.{make_ready}

-- The disposition of an abandoned attempt.
abbrev pub has_attempts : TaskRecord → Bool
has_attempts t = ltb t.attempt_count t.spec.maximum_attempts

abbrev pub abandoned_target : TaskRecord → TaskState
abandoned_target t =
    if has_attempts t then TaskState.failed_retryable else TaskState.failed_terminal

abbrev pub abandoned_task : TaskRecord → TaskState → ℕ → String → TaskRecord
abandoned_task t state now error_id = record t {
  state = state;
  last_error_id = some error_id;
  finished_at = if has_attempts t then none else some now;
}

-- `_recover_abandoned_task`.
unfoldable pub recover_abandoned_task : TaskRecord → Exec Store TaskRecord
unfolding record_error finish_open_task_attempts publish update_task make_ready
recover_abandoned_task t = do
  error_id ← commit (record_error t.run_id (some t.spec.task_id) concurrency_conflict_error)
  commit (finish_open_task_attempts t.run_id t.spec.task_id (abandoned_target t) error_id)
  state ← lift (transition_task t.state (abandoned_target t))
  now ← (λ s. (ok s.now, s))
  failed ← commit (update_task (abandoned_task t state now error_id) t.version)
  task ← (if has_attempts t then make_ready failed else pure failed)
  commit (publish task.run_id "recovery.abandoned_attempt" (some task.spec.task_id))
  pure task

abbrev is_suspended : TaskState → Bool
is_suspended TaskState.paused = true
is_suspended TaskState.waiting = true
is_suspended _ = false

abbrev is_running : TaskState → Bool
is_running TaskState.running = true
is_running _ = false

-- The loop of `resume` over the tasks.
unfoldable pub resume_tasks : List TaskRecord → Exec Store (List TaskRecord)
unfolding make_ready recover_abandoned_task
resume_tasks [] = pure []
resume_tasks (t ∷ ts) = do
  task ←
      (if is_suspended t.state
        then make_ready t
        else if is_running t.state
        then recover_abandoned_task t
        else pure t)
  done ← resume_tasks ts
  pure (task ∷ done)

-- The states that `resume` accepts.
abbrev pub can_resume : RunState → Bool
can_resume RunState.paused = true
can_resume RunState.running = true
can_resume RunState.recovering = true
can_resume _ = false

-- `CircuitBreaker`; the threshold and the recovery time are at least 1.
pub record CircuitBreaker : Type 0 where
  pub threshold : ℕ
  pub recovery : ℕ
  pub failures : ℕ
  pub opened_at : Option ℕ

unfoldable pub allow : ℕ → CircuitBreaker → Bool
allow now b = elim b.opened_at [ none ↦ true | some opened ↦ leb (opened + b.recovery) now ]

unfoldable pub before_call : ℕ → CircuitBreaker → Result (Unit {0})
unfolding allow
before_call now b = if not (allow now b) then err provider_retryable_error else ok tt

unfoldable pub success : CircuitBreaker → CircuitBreaker
success b = record b { failures = 0; opened_at = none }

unfoldable pub failure : ℕ → CircuitBreaker → CircuitBreaker
failure now b =
    let counted = b.failures + 1 in
    record b {
      failures = counted;
      opened_at = if leb b.threshold counted then some now else b.opened_at;
    }
