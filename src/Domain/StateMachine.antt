-- ===== src/Domain/StateMachine.antt =====
-- domain/state_machine.py: the tables of run and task transitions, and their guarded step.
pub mod Histories
use build_your_own_durable_a.Common.{Bool, List, [], ◌∷◌, any, if◌then◌else◌}
use build_your_own_durable_a.Common.Result.{Result, ok, err, invalid_transition_error}
use build_your_own_durable_a.Domain.Enums.{RunState, TaskState, run_state_eq, task_state_eq}

abbrev pub run_transitions : RunState → List RunState
run_transitions RunState.created = RunState.planning ∷ RunState.cancelled ∷ RunState.failed ∷ []
run_transitions RunState.planning =
    RunState.running ∷ RunState.pause_requested ∷ RunState.cancelled ∷ RunState.failed ∷ []
run_transitions RunState.running =
    RunState.pause_requested ∷ RunState.completed ∷ RunState.failed ∷ RunState.cancelled
    ∷ RunState.recovering ∷ []
run_transitions RunState.pause_requested =
    RunState.paused ∷ RunState.cancelled ∷ RunState.failed ∷ RunState.completed ∷ []
run_transitions RunState.paused = RunState.recovering ∷ RunState.cancelled ∷ RunState.failed ∷ []
run_transitions RunState.recovering =
    RunState.running ∷ RunState.paused ∷ RunState.cancelled ∷ RunState.failed ∷ []
run_transitions RunState.completed = []
run_transitions RunState.failed = []
run_transitions RunState.cancelled = []

abbrev pub task_transitions : TaskState → List TaskState
task_transitions TaskState.pending =
    TaskState.ready ∷ TaskState.waiting ∷ TaskState.cancelled ∷ TaskState.skipped ∷ []
task_transitions TaskState.ready =
    TaskState.running ∷ TaskState.pause_requested ∷ TaskState.cancelled ∷ TaskState.skipped ∷ []
task_transitions TaskState.running =
    TaskState.succeeded ∷ TaskState.failed_retryable ∷ TaskState.failed_terminal ∷ TaskState.waiting
    ∷ TaskState.pause_requested ∷ TaskState.cancelled ∷ []
task_transitions TaskState.waiting =
    TaskState.ready ∷ TaskState.cancelled ∷ TaskState.skipped ∷ TaskState.failed_terminal ∷ []
task_transitions TaskState.pause_requested =
    TaskState.paused ∷ TaskState.succeeded ∷ TaskState.cancelled ∷ TaskState.failed_terminal ∷ []
task_transitions TaskState.paused = TaskState.ready ∷ TaskState.cancelled ∷ []
task_transitions TaskState.failed_retryable =
    TaskState.ready ∷ TaskState.failed_terminal ∷ TaskState.cancelled ∷ []
task_transitions TaskState.succeeded = []
task_transitions TaskState.failed_terminal = []
task_transitions TaskState.cancelled = []
task_transitions TaskState.skipped = []

-- `_transition`: a self transition is accepted before the table is read.
abbrev pub transition {ℓ} : {S : Type ℓ} → (S → S → Bool) → (S → List S) → S → S → Result S
transition eq table current target =
    if eq target current
    then ok current
    else if any (eq target) (table current)
    then ok target
    else err invalid_transition_error

unfoldable pub transition_run : RunState → RunState → Result RunState
transition_run current target = transition run_state_eq run_transitions current target

unfoldable pub transition_task : TaskState → TaskState → Result TaskState
transition_task current target = transition task_state_eq task_transitions current target
