-- ===== src/Domain/Models.antt =====
-- domain/models.py: run, plan, task and tool records with the validators that pydantic runs when a
-- record is built from its fields (`model_copy` runs none). Timestamps that no code branches on,
-- such as `created_at` and `updated_at`, are left out.
use Prim.Native.Char.{code}
use Prim.Native.String.{count}
use build_your_own_durable_a.Common.{
  ℕ, String, Bool, true, false, not, ◌&&◌, ◌||◌, Option, List, eqb, leb, ltb, any, elem, distinct,
  length, if◌then◌else◌,
}
use build_your_own_durable_a.Common.Result.{Result, ok, err, validation_error, ◌>>◌, refuse_if}
use build_your_own_durable_a.Domain.Enums.{
  RunState, TaskState, FailurePolicy, CheckpointPolicy, ToolCallStatus, SideEffectClass,
}

pub record TaskSpec : Type 0 where
  pub task_id : String
  pub title : String
  pub description : String
  pub dependencies : List String
  pub priority : ℕ
  pub maximum_attempts : ℕ
  pub input_references : List String
  pub expected_outputs : List String
  pub acceptance_criteria : List String
  pub required_evidence : List String
  pub required_tools : List String
  pub tool_permissions : List String
  pub estimated_context_tokens : ℕ
  pub checkpoint_policy : CheckpointPolicy
  pub failure_policy : FailurePolicy
  pub parallelizable : Bool

-- [A-Za-z0-9_.-]
abbrev is_id_code : ℕ → Bool
is_id_code c =
    (leb b'A' c && leb c b'Z')
    || (leb b'a' c && leb c b'z')
    || (leb b'0' c && leb c b'9')
    || eqb c b'_'
    || eqb c b'.'
    || eqb c b'-'

abbrev pub is_id_text : String → Bool
is_id_text String.[] = true
is_id_text (String.◌∷◌ c s) = is_id_code (code c) && is_id_text s

abbrev pub within : ℕ → ℕ → ℕ → Bool
within low high n = leb low n && leb n high

-- `unique_ordered_values`; `blank s` is Python's `not s.strip()`.
unfoldable pub unique_ordered_values : (String → Bool) → List String → Bool
unique_ordered_values blank value = distinct value && not (any blank value)

-- The field bounds, then the field validators, then `reject_self_dependency`.
unfoldable pub validate_task_spec : (String → Bool) → TaskSpec → Result TaskSpec
unfolding unique_ordered_values
validate_task_spec blank s = do
  refuse_if (not (is_id_text s.task_id && within 1 128 (count s.task_id))) validation_error
  refuse_if (not (within 3 200 (count s.title))) validation_error
  refuse_if (not (within 3 10000 (count s.description))) validation_error
  refuse_if (not (leb s.priority 10000)) validation_error
  refuse_if (not (within 1 20 s.maximum_attempts)) validation_error
  refuse_if (eqb (length s.expected_outputs) 0) validation_error
  refuse_if (eqb (length s.acceptance_criteria) 0) validation_error
  refuse_if (eqb (length s.required_evidence) 0) validation_error
  refuse_if (not (within 128 1000000 s.estimated_context_tokens)) validation_error
  refuse_if (not (unique_ordered_values blank s.dependencies)) validation_error
  refuse_if (not (unique_ordered_values blank s.input_references)) validation_error
  refuse_if (not (unique_ordered_values blank s.expected_outputs)) validation_error
  refuse_if (not (unique_ordered_values blank s.acceptance_criteria)) validation_error
  refuse_if (not (unique_ordered_values blank s.required_evidence)) validation_error
  refuse_if (not (unique_ordered_values blank s.required_tools)) validation_error
  refuse_if (elem s.task_id s.dependencies) validation_error
  ok s

pub record PlanSpec : Type 0 where
  pub plan_id : String
  pub run_id : String
  pub version : ℕ
  pub goal : String
  pub scope : List String
  pub assumptions : List String
  pub constraints : List String
  pub acceptance_criteria : List String
  pub research_questions : List String
  pub risks : List String
  pub expected_artifacts : List String
  pub verification_steps : List String
  pub rollback_considerations : List String
  pub tasks : List TaskSpec
  pub revision_reason : String
  pub previous_plan_id : Option String

-- The field bounds; the tasks are models that were validated when they were built.
unfoldable pub validate_plan_spec : PlanSpec → Result PlanSpec
validate_plan_spec p = do
  refuse_if (ltb p.version 1) validation_error
  refuse_if (not (within 3 20000 (count p.goal))) validation_error
  refuse_if (eqb (length p.scope) 0) validation_error
  refuse_if (eqb (length p.acceptance_criteria) 0) validation_error
  refuse_if (eqb (length p.verification_steps) 0) validation_error
  refuse_if (eqb (length p.rollback_considerations) 0) validation_error
  refuse_if (not (within 1 100 (length p.tasks))) validation_error
  refuse_if (not (within 3 2000 (count p.revision_reason))) validation_error
  ok p

pub record RunRecord : Type 0 where
  pub run_id : String
  pub owner_id : String
  pub objective : String
  pub state : RunState
  pub active_plan_id : Option String
  pub active_task_id : Option String
  pub repository_root : Option String
  pub repository_snapshot_id : Option String
  pub configuration_fingerprint : String
  pub version : ℕ
  pub finished_at : Option ℕ

pub record TaskRecord : Type 0 where
  pub run_id : String
  pub plan_id : String
  pub spec : TaskSpec
  pub state : TaskState
  pub attempt_count : ℕ
  pub version : ℕ
  pub last_error_id : Option String
  pub started_at : Option ℕ
  pub finished_at : Option ℕ

-- `attempts_within_bound`, with the bound on `version`.
unfoldable pub validate_task_record : TaskRecord → Result TaskRecord
validate_task_record t =
    if ltb t.spec.maximum_attempts t.attempt_count || ltb t.version 1
    then err validation_error
    else ok t

-- Schemas, arguments and outputs are JSON values, of a type `J` that the model leaves open.
pub record ToolDefinition (J : Type 0) : Type 0 where
  pub name : String
  pub input_schema : J
  pub output_schema : J
  pub required_permissions : List String
  pub side_effect_class : SideEffectClass
  pub retry_safe : Bool
  pub produces_evidence : Bool

abbrev pub is_non_idempotent : SideEffectClass → Bool
is_non_idempotent SideEffectClass.non_idempotent = true
is_non_idempotent _ = false

unfoldable pub validate_tool_definition :
    {J : Type 0} → ToolDefinition J → Result (ToolDefinition J)
validate_tool_definition d =
    if is_non_idempotent d.side_effect_class && d.retry_safe then err validation_error else ok d

pub record ToolCall (J : Type 0) : Type 0 where
  pub tool_call_id : String
  pub run_id : String
  pub task_id : String
  pub tool_name : String
  pub arguments : J
  pub arguments_hash : String
  pub idempotency_key : String
  pub side_effect_class : SideEffectClass
  pub status : ToolCallStatus
  pub attempt : ℕ
  pub started_at : Option ℕ
  pub finished_at : Option ℕ

pub record ToolResult (J : Type 0) : Type 0 where
  pub tool_result_id : String
  pub tool_call_id : String
  pub success : Bool
  pub output : J
  pub output_hash : String
  pub exit_code : Option J
  pub truncated : Bool
  pub duration_seconds : ℕ
