-- ===== src/Orchestrator/Handlers.antt =====
-- orchestration/orchestrator.py: the handlers that loop over the tasks of a run. Each ends before
-- its checkpoint and its event on the run.
use build_your_own_durable_a.Common.{
  ℕ, zero, suc, String, Bool, true, false, not, ◌&&◌, ◌||◌, Option, none, some, List, [], ◌∷◌, ◌==◌,
  any, elem, disjoint, length, if◌then◌else◌,
}
use build_your_own_durable_a.Common.Exec.{Exec, pure, commit, lift, ◌>>=◌, ◌>>◌}
use build_your_own_durable_a.Common.Result.{ok}
use build_your_own_durable_a.Domain.Enums.{TaskState}
use build_your_own_durable_a.Domain.Models.{RunRecord, TaskRecord}
use build_your_own_durable_a.Domain.StateMachine.{transition_task}
use build_your_own_durable_a.Plan.Ready.{ready_tasks}
use build_your_own_durable_a.Store.{
  Store, get_run, update_run, update_task, cancel_task_and_open_attempts, publish,
}
use build_your_own_durable_a.Orchestrator.{
  Failure, make_ready, fail_task, requires_review, continues, fails_run, disposed,
}

abbrev is_id_of : String → TaskRecord → Bool
is_id_of k t = k == t.spec.task_id

-- `_promote_ready`: the candidates become READY.
unfoldable pub promote : List TaskRecord → List TaskRecord → Exec Store (List TaskRecord)
unfolding make_ready
promote candidates [] = pure []
promote candidates (t ∷ ts) =
    let rest = promote candidates ts in
    if any (is_id_of t.spec.task_id) candidates
    then (do promoted ← make_ready t; done ← rest; pure (promoted ∷ done))
    else (do done ← rest; pure (t ∷ done))

unfoldable pub promote_ready : List TaskRecord → Exec Store (List TaskRecord)
unfolding promote
promote_ready tasks = do candidates ← lift (ready_tasks tasks); promote candidates tasks

-- One pass of the `for` loop: `blocked` grows while the pass goes on.
abbrev pub spread : List TaskRecord → List String → List String
spread [] blocked = blocked
spread (t ∷ ts) blocked = spread ts (
    if not (elem t.spec.task_id blocked) && not (disjoint t.spec.dependencies blocked)
    then t.spec.task_id ∷ blocked
    else blocked)

-- `while changed`: each pass but the last adds a task, so the number of tasks and one is enough fuel.
abbrev pub spread_all : ℕ → List TaskRecord → List String → List String
spread_all zero tasks blocked = blocked
spread_all (suc fuel) tasks blocked = spread_all fuel tasks (spread tasks blocked)

unfoldable pub blocked_by : List TaskRecord → String → List String
blocked_by tasks failed_task_id = spread_all (suc (length tasks)) tasks (failed_task_id ∷ [])

abbrev pub is_skippable : TaskState → Bool
is_skippable TaskState.pending = true
is_skippable TaskState.ready = true
is_skippable TaskState.waiting = true
is_skippable _ = false

-- The loop of `_skip_transitive_dependents` over the tasks.
unfoldable pub skip_blocked : List String → String → List TaskRecord → Exec Store (List TaskRecord)
unfolding update_task
skip_blocked blocked failed_task_id [] = pure []
skip_blocked blocked failed_task_id (t ∷ ts) =
    let rest = skip_blocked blocked failed_task_id ts in
    if elem t.spec.task_id blocked && not (t.spec.task_id == failed_task_id) && is_skippable t.state
    then (do
      state ← lift (transition_task t.state TaskState.skipped)
      now ← (λ s. (ok s.now, s))
      skipped ← commit (update_task (record t { state = state; finished_at = some now }) t.version)
      done ← rest
      pure (skipped ∷ done))
    else (do done ← rest; pure (t ∷ done))

-- `tasks[0].run_id` is the run's ID, which the caller has.
unfoldable pub skip_transitive_dependents :
    String → String → List TaskRecord → Exec Store (List TaskRecord)
unfolding blocked_by skip_blocked publish
skip_transitive_dependents run_id failed_task_id tasks = do
  tasks' ← skip_blocked (blocked_by tasks failed_task_id) failed_task_id tasks
  commit (publish run_id "task.dependents_skipped" (some failed_task_id))
  pure tasks'

-- `tasks[task_index] = task`, at the first task with that ID.
abbrev pub replace_task : TaskRecord → List TaskRecord → List TaskRecord
replace_task task [] = []
replace_task task (t ∷ ts) =
    let rest = replace_task task ts in
    if t.spec.task_id == task.spec.task_id then task ∷ ts else t ∷ rest

unfoldable pub fail_tasks : ℕ → List Failure → List TaskRecord → Exec Store (List TaskRecord)
unfolding fail_task
fail_tasks retries [] tasks = pure tasks
fail_tasks retries (f ∷ fs) tasks = do
  task ← fail_task retries f
  fail_tasks retries fs (replace_task task tasks)

unfoldable pub skip_after :
    ℕ → String → List Failure → List TaskRecord → Exec Store (List TaskRecord)
unfolding skip_transitive_dependents
skip_after retries run_id [] tasks = pure tasks
skip_after retries run_id (f ∷ fs) tasks =
    if continues retries f
    then (do
      tasks' ← skip_transitive_dependents run_id f.task.spec.task_id tasks
      skip_after retries run_id fs tasks')
    else skip_after retries run_id fs tasks

abbrev finished_if : Bool → ℕ → Option ℕ → Option ℕ
finished_if true now old = some now
finished_if false now old = old

-- `_handle_batch_failures`: the run, the tasks, and whether the loop over the plan ends.
unfoldable pub handle_batch_failures :
    ℕ → String → List Failure → List TaskRecord → Exec Store (RunRecord × List TaskRecord × Bool)
unfolding fail_tasks skip_after get_run update_run disposed
handle_batch_failures retries run_id failures tasks = do
  tasks' ← fail_tasks retries failures tasks
  tasks'' ← skip_after retries run_id failures tasks'
  current ← (λ s. (get_run run_id s, s))
  state ←
      lift
        (disposed (any (fails_run retries) failures) (any requires_review failures) current.state)
  now ← (λ s. (ok s.now, s))
  run ← commit (
      update_run
        (record current {
          state = state;
          active_task_id = none;
          finished_at = finished_if (any (fails_run retries) failures) now current.finished_at;
        })
        current.version)
  pure (run, tasks'', any (fails_run retries) failures || any requires_review failures)

abbrev pub is_settled : TaskState → Bool
is_settled TaskState.succeeded = true
is_settled TaskState.failed_terminal = true
is_settled TaskState.cancelled = true
is_settled TaskState.skipped = true
is_settled _ = false

-- The loop of `_cancel` over the tasks.
unfoldable pub cancel_tasks : List TaskRecord → Exec Store (List TaskRecord)
unfolding cancel_task_and_open_attempts
cancel_tasks [] = pure []
cancel_tasks (t ∷ ts) =
    let rest = cancel_tasks ts in
    if is_settled t.state then (do done ← rest; pure (t ∷ done)) else (do
      state ← lift (transition_task t.state TaskState.cancelled)
      now ← (λ s. (ok s.now, s))
      cancelled ← commit (
          cancel_task_and_open_attempts (record t { state = state; finished_at = some now })
            t.version)
      done ← rest
      pure (cancelled ∷ done))
