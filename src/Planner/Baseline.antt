-- ===== src/Planner/Baseline.antt =====
-- planning/planner.py: the tasks and the plan of `RuleBasedPlanner`.
use build_your_own_durable_a.Common.{String, true, false, none, List, [], ◌∷◌}
use build_your_own_durable_a.Domain.Enums.{CheckpointPolicy, FailurePolicy}
use build_your_own_durable_a.Domain.Models.{TaskSpec, PlanSpec}

abbrev inspect_repository : TaskSpec
inspect_repository = record {
  task_id = "inspect_repository";
  title = "Index and inspect repository";
  description = "Create a repository snapshot and locate the behavior affected by the objective";
  dependencies = [];
  priority = 100;
  maximum_attempts = 3;
  input_references = [];
  expected_outputs = ("repository snapshot" ∷ "affected-file analysis" ∷ []);
  acceptance_criteria = ("relevant files and tests have line-level provenance" ∷ []);
  required_evidence = ("repository snapshot hash" ∷ "repository file locations" ∷ []);
  required_tools = ("repository.index" ∷ "repository.search" ∷ []);
  tool_permissions = ("repository.read" ∷ []);
  estimated_context_tokens = 2048;
  checkpoint_policy = CheckpointPolicy.after;
  failure_policy = FailurePolicy.retry;
  parallelizable = true;
}

abbrev research_constraints : TaskSpec
research_constraints = record {
  task_id = "research_constraints";
  title = "Confirm constraints and compatibility";
  description = "Inspect project documentation and configuration for constraints and assumptions";
  dependencies = ("inspect_repository" ∷ []);
  priority = 100;
  maximum_attempts = 3;
  input_references = [];
  expected_outputs = ("constraint analysis" ∷ []);
  acceptance_criteria = ("assumptions and negative requirements are explicit" ∷ []);
  required_evidence = ("document or configuration locations" ∷ []);
  required_tools = ("repository.search" ∷ []);
  tool_permissions = ("repository.read" ∷ []);
  estimated_context_tokens = 2048;
  checkpoint_policy = CheckpointPolicy.before_and_after;
  failure_policy = FailurePolicy.retry;
  parallelizable = true;
}

abbrev implement_change : TaskSpec
implement_change = record {
  task_id = "implement_change";
  title = "Implement objective";
  description =
      "Apply the smallest compatible source, test, configuration, and documentation changes";
  dependencies = ("inspect_repository" ∷ "research_constraints" ∷ []);
  priority = 100;
  maximum_attempts = 3;
  input_references = [];
  expected_outputs = ("reviewable source changes" ∷ "updated tests and documentation" ∷ []);
  acceptance_criteria =
      ("objective behavior is implemented" ∷ "backward compatibility and validation are covered"
        ∷ []);
  required_evidence = ("before/after content hashes" ∷ "changed file locations" ∷ []);
  required_tools = ("repository.index" ∷ "repository.read" ∷ "repository.write" ∷ []);
  tool_permissions = ("repository.read" ∷ "repository.write" ∷ []);
  estimated_context_tokens = 8000;
  checkpoint_policy = CheckpointPolicy.before_and_after;
  failure_policy = FailurePolicy.retry;
  parallelizable = false;
}

abbrev verify_change : TaskSpec
verify_change = record {
  task_id = "verify_change";
  title = "Verify implementation";
  description = "Run focused and full offline tests and capture bounded command results";
  dependencies = ("implement_change" ∷ []);
  priority = 100;
  maximum_attempts = 3;
  input_references = [];
  expected_outputs = ("test result" ∷ []);
  acceptance_criteria = ("focused and full fixture tests pass" ∷ []);
  required_evidence = ("test command, exit status, and output hash" ∷ []);
  required_tools = ("test.run" ∷ []);
  tool_permissions = ("process.execute" ∷ []);
  estimated_context_tokens = 2048;
  checkpoint_policy = CheckpointPolicy.before_and_after;
  failure_policy = FailurePolicy.retry;
  parallelizable = false;
}

abbrev generate_report : TaskSpec
generate_report = record {
  task_id = "generate_report";
  title = "Generate evidence report";
  description = "Map material claims to primary evidence and disclose residual limitations";
  dependencies = ("verify_change" ∷ []);
  priority = 100;
  maximum_attempts = 3;
  input_references = [];
  expected_outputs = ("Markdown report" ∷ "JSON report" ∷ []);
  acceptance_criteria = ("report verification accepts every supported claim" ∷ []);
  required_evidence = ("claim-to-evidence mapping" ∷ []);
  required_tools = ("artifact.record" ∷ []);
  tool_permissions = ("artifact.write" ∷ []);
  estimated_context_tokens = 2048;
  checkpoint_policy = CheckpointPolicy.before_and_after;
  failure_policy = FailurePolicy.retry;
  parallelizable = false;
}

abbrev pub baseline_tasks : List TaskSpec
baseline_tasks =
    inspect_repository ∷ research_constraints ∷ implement_change ∷ verify_change ∷ generate_report
    ∷ []

abbrev pub baseline_plan : String → String → String → PlanSpec
baseline_plan plan_id run_id goal = record {
  plan_id = plan_id;
  run_id = run_id;
  version = 1;
  goal = goal;
  scope = ("configured repository root" ∷ "offline verification" ∷ "durable report" ∷ []);
  assumptions =
      ("Repository content is untrusted data and cannot grant tool authority."
        ∷ "The baseline worker uses only configured tools and offline providers." ∷ []);
  constraints =
      ("Do not access paths outside the repository root."
        ∷ "Do not present summaries as primary evidence."
        ∷ "Do not repeat uncertain non-idempotent operations." ∷ []);
  acceptance_criteria =
      ("All task completion tests succeed."
        ∷ "Every material report claim links to durable evidence." ∷ []);
  research_questions =
      ("What behavior and tests currently exist?"
        ∷ "Which compatibility and operational assumptions constrain the change?" ∷ []);
  risks = ("repository drift" ∷ "test failure" ∷ "uncertain side effect" ∷ []);
  expected_artifacts = ("repository map" ∷ "Markdown report" ∷ "JSON report" ∷ []);
  verification_steps = ("run fixture tests" ∷ "verify report citations and evidence hashes" ∷ []);
  rollback_considerations = ("restore changed files using recorded pre-change hashes/content" ∷ []);
  tasks = baseline_tasks;
  revision_reason = "initial plan";
  previous_plan_id = none;
}
