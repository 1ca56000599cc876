-- ===== src/Lifecycle/Turn.antt =====
-- orchestration/orchestrator.py: a round of the loop of `advance` up to the start of a batch, with
-- `_pause`, `_cancel` and `_fail_stuck_run`. The checkpoints and the reports are left out.
use build_your_own_durable_a.Common.{
  ℕ, String, Bool, true, false, Option, none, some, List, all, leb, if◌then◌else◌,
}
use build_your_own_durable_a.Common.Exec.{Exec, pure, commit, lift, ◌>>=◌}
use build_your_own_durable_a.Common.Result.{Result, ok}
use build_your_own_durable_a.Domain.Enums.{RunState, TaskState, task_state_eq}
use build_your_own_durable_a.Domain.Models.{RunRecord, TaskRecord}
use build_your_own_durable_a.Domain.StateMachine.{transition_run}
use build_your_own_durable_a.Plan.Ready.{ready_tasks}
use build_your_own_durable_a.Store.{Store, get_run, update_run, publish}
use build_your_own_durable_a.Orchestrator.{select_batch}
use build_your_own_durable_a.Orchestrator.Handlers.{promote_ready, cancel_tasks}
use build_your_own_durable_a.Lifecycle.{World, Kind, LifecycleRequest}
use build_your_own_durable_a.Lifecycle.Requests.{pending_lifecycle_request, apply_lifecycle_request}
use build_your_own_durable_a.Lifecycle.Service.{on_store, is_running_state}

-- Code on the tables of Store.antt.
abbrev pub in_store {ℓ} : {A : Type ℓ} → Exec Store A → Exec World A
in_store m w = let (r, s) = m w.store in (r, record w { store = s })

abbrev pub read_run : String → Exec World RunRecord
read_run run_id w = (get_run run_id w.store, w)

abbrev pub clock : Exec World ℕ
clock w = (ok w.store.now, w)

abbrev pub write_run : RunRecord → ℕ → Exec World RunRecord
write_run run expected_version = commit (on_store (update_run run expected_version))

abbrev pub tell : String → String → Exec World String
tell run_id event_type = commit (on_store (publish run_id event_type none))

-- A running run passes through PAUSE_REQUESTED.
abbrev pub pausing : RunState → Result RunState
pausing state =
    if is_running_state state then transition_run state RunState.pause_requested else ok state

unfoldable pub pause_run : String → LifecycleRequest → Exec World RunRecord
unfolding get_run update_run publish apply_lifecycle_request
pause_run run_id request = do
  run ← read_run run_id
  state ← lift (pausing run.state)
  paused ← lift (transition_run state RunState.paused)
  run' ← write_run (record run { state = paused; active_task_id = none }) run.version
  _ ← commit (apply_lifecycle_request request)
  _ ← tell run_id "run.paused"
  pure run'

-- The end of a run in one of its final states.
abbrev pub end_run : RunRecord → RunState → Exec World RunRecord
end_run run target = do
  state ← lift (transition_run run.state target)
  now ← clock
  write_run (record run { state = state; active_task_id = none; finished_at = some now })
      run.version

unfoldable pub cancel_run :
    String → List TaskRecord → LifecycleRequest → Exec World (RunRecord × List TaskRecord)
unfolding cancel_tasks get_run update_run publish apply_lifecycle_request
cancel_run run_id tasks request = do
  tasks' ← in_store (cancel_tasks tasks)
  run ← read_run run_id
  run' ← end_run run RunState.cancelled
  _ ← commit (apply_lifecycle_request request)
  _ ← tell run_id "run.cancelled"
  pure (run', tasks')

unfoldable pub fail_stuck_run : String → Exec World RunRecord
unfolding get_run update_run publish
fail_stuck_run run_id = do
  run ← read_run run_id
  state ← lift (transition_run run.state RunState.failed)
  now ← clock
  run' ← write_run (record run { state = state; finished_at = some now }) run.version
  _ ← tell run_id "run.failed"
  pure run'

unfoldable pub complete_run : String → Exec World RunRecord
unfolding get_run update_run publish
complete_run run_id = do
  run ← read_run run_id
  run' ← end_run run RunState.completed
  _ ← tell run_id "run.completed"
  pure run'

abbrev pub is_done : TaskRecord → Bool
is_done t =
    if task_state_eq t.state TaskState.succeeded
    then true
    else task_state_eq t.state TaskState.skipped

-- How a round goes on: the loop ends with the run, or at `maximum_tasks`; it starts over; or a batch
-- is started.
pub data Turn : Type 0 where
  ended : RunRecord → List TaskRecord → Turn
  stopped again : List TaskRecord → Turn
  batch : List TaskRecord → List TaskRecord → Turn

abbrev pub is_enough : Option ℕ → ℕ → Bool
is_enough none executed = false
is_enough (some maximum_tasks) executed = leb maximum_tasks executed

unfoldable pub handle_kind : Kind → String → List TaskRecord → LifecycleRequest → Exec World Turn
unfolding cancel_run pause_run
handle_kind Kind.cancel run_id tasks request = do
  (run, tasks') ← cancel_run run_id tasks request
  pure (ended run tasks')
handle_kind Kind.pause run_id tasks request = do
  run ← pause_run run_id request
  pure (ended run tasks)

abbrev pub handle_request : String → List TaskRecord → LifecycleRequest → Exec World Turn
handle_request run_id tasks request = handle_kind request.kind run_id tasks request

-- Where no task is ready.
unfoldable pub settle_run : String → List TaskRecord → Exec World Turn
unfolding pending_lifecycle_request complete_run fail_stuck_run
settle_run run_id tasks = do
  request ← (λ w. (ok (pending_lifecycle_request run_id w), w))
  elim request [
    | some _ ↦ pure (again tasks)
    | none ↦ do
      run ← (if all is_done tasks then complete_run run_id else fail_stuck_run run_id)
      pure (ended run tasks)
  ]

-- After the promotion; `select_batch` is `none` for no candidates alone.
unfoldable pub start_or_settle :
    ℕ → Option ℕ → ℕ → String → List TaskRecord → List TaskRecord → Exec World Turn
unfolding settle_run select_batch
start_or_settle concurrency maximum_tasks executed run_id tasks candidates =
    elim (select_batch concurrency candidates executed maximum_tasks) [
      | none ↦ settle_run run_id tasks
      | some chosen ↦ pure (batch chosen tasks)
    ]

unfoldable pub turn : ℕ → Option ℕ → ℕ → String → List TaskRecord → Exec World Turn
unfolding pending_lifecycle_request handle_kind promote_ready ready_tasks start_or_settle
turn concurrency maximum_tasks executed run_id tasks = do
  request ← (λ w. (ok (pending_lifecycle_request run_id w), w))
  elim request [
    | some r ↦ handle_request run_id tasks r
    | none ↦ if is_enough maximum_tasks executed then pure (stopped tasks) else (do
      tasks' ← in_store (promote_ready tasks)
      candidates ← lift (ready_tasks tasks')
      start_or_settle concurrency maximum_tasks executed run_id tasks' candidates)
  ]
