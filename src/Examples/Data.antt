-- ===== src/Examples/Data.antt =====
-- A plan of two tasks, its run, and a store that holds them.
use build_your_own_durable_a.Common.{
  ℕ, String, none, some, true, Bool, List, [], ◌∷◌, eqb, if◌then◌else◌,
}
use build_your_own_durable_a.Common.Table.{empty, insert}
use build_your_own_durable_a.Domain.Enums.{RunState, TaskState, FailurePolicy, CheckpointPolicy}
use build_your_own_durable_a.Domain.Models.{TaskSpec, PlanSpec, RunRecord, TaskRecord}
use build_your_own_durable_a.Store.{Store, pk_of}

abbrev pub spec_of : String → List String → FailurePolicy → Bool → TaskSpec
spec_of task_id dependencies policy parallelizable = record {
  task_id = task_id;
  title = "A task";
  description = "What the task is to do";
  dependencies = dependencies;
  priority = 100;
  maximum_attempts = 3;
  input_references = [];
  expected_outputs = "out" ∷ [];
  acceptance_criteria = "done" ∷ [];
  required_evidence = "log" ∷ [];
  required_tools = [];
  tool_permissions = [];
  estimated_context_tokens = 1000;
  checkpoint_policy = CheckpointPolicy.after;
  failure_policy = policy;
  parallelizable = parallelizable;
}

abbrev pub task_of : TaskSpec → TaskState → ℕ → TaskRecord
task_of spec state attempts = record {
  run_id = "run";
  plan_id = "plan";
  spec = spec;
  state = state;
  attempt_count = attempts;
  version = 1;
  last_error_id = none;
  started_at = none;
  finished_at = none;
}

abbrev pub plan : PlanSpec
plan = record {
  plan_id = "plan";
  run_id = "run";
  version = 1;
  goal = "goal";
  scope = [];
  assumptions = [];
  constraints = [];
  acceptance_criteria = [];
  research_questions = [];
  risks = [];
  expected_artifacts = [];
  verification_steps = [];
  rollback_considerations = [];
  tasks = spec_of "a" [] FailurePolicy.retry true ∷ [];
  revision_reason = "first";
  previous_plan_id = none;
}

abbrev pub run : RunRecord
run = record {
  run_id = "run";
  owner_id = "owner";
  objective = "objective";
  state = RunState.running;
  active_plan_id = some "plan";
  active_task_id = none;
  repository_root = none;
  repository_snapshot_id = none;
  configuration_fingerprint = "config";
  version = 4;
  finished_at = none;
}

-- A store with the run and one task.
abbrev pub store_with : TaskRecord → Store
store_with t = record {
  runs = insert "run" run empty;
  tasks = insert (pk_of t) t empty;
  attempts =
      record {
        attempt_id = "attempt";
        run_id = "run";
        task_id = t.spec.task_id;
        attempt_number = t.attempt_count;
        state = TaskState.running;
        error_id = none;
        finished_at = none;
      }
      ∷ [];
  errors = [];
  events = [];
  identifiers = λ n.
      if eqb n 0
      then "id-0"
      else if eqb n 1
      then "id-1"
      else if eqb n 2
      then "id-2"
      else if eqb n 3
      then "id-3"
      else "id";
  now = 7;
}
