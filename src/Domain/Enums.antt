-- ===== src/Domain/Enums.antt =====
-- domain/enums.py: the enumerations that the modelled code branches on, and their equality.
use build_your_own_durable_a.Common.{Bool, true, false}

pub data RunState : Type 0 where
  created planning running pause_requested paused recovering completed failed cancelled : RunState

pub data TaskState : Type 0 where
  pending ready running waiting pause_requested paused succeeded failed_retryable : TaskState
  failed_terminal cancelled skipped : TaskState

pub data FailurePolicy : Type 0 where
  retry fail_run skip_dependents manual_review : FailurePolicy

pub data CheckpointPolicy : Type 0 where
  before_and_after after run_boundary : CheckpointPolicy

pub data ToolCallStatus : Type 0 where
  intent_recorded running succeeded failed uncertain needs_review : ToolCallStatus

pub data SideEffectClass : Type 0 where
  no_effect idempotent reversible non_idempotent : SideEffectClass

pub data VerificationStatus : Type 0 where
  unverified verified conflicting invalid : VerificationStatus

pub data SummaryLevel : Type 0 where
  task task_group run : SummaryLevel

pub data ClaimKind : Type 0 where
  verified_fact test_supported inference assumption unresolved limitation : ClaimKind

abbrev pub run_state_eq : RunState → RunState → Bool
run_state_eq created created = true
run_state_eq planning planning = true
run_state_eq RunState.running RunState.running = true
run_state_eq RunState.pause_requested RunState.pause_requested = true
run_state_eq RunState.paused RunState.paused = true
run_state_eq recovering recovering = true
run_state_eq completed completed = true
run_state_eq RunState.failed RunState.failed = true
run_state_eq RunState.cancelled RunState.cancelled = true
run_state_eq _ _ = false

abbrev pub task_state_eq : TaskState → TaskState → Bool
task_state_eq pending pending = true
task_state_eq ready ready = true
task_state_eq TaskState.running TaskState.running = true
task_state_eq waiting waiting = true
task_state_eq TaskState.pause_requested TaskState.pause_requested = true
task_state_eq TaskState.paused TaskState.paused = true
task_state_eq TaskState.succeeded TaskState.succeeded = true
task_state_eq failed_retryable failed_retryable = true
task_state_eq failed_terminal failed_terminal = true
task_state_eq TaskState.cancelled TaskState.cancelled = true
task_state_eq skipped skipped = true
task_state_eq _ _ = false
