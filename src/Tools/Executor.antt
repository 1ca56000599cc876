-- ===== src/Tools/Executor.antt =====
-- tools/executor.py: `ToolExecutor.execute`, with `ToolRegistry.get` of tools/registry.py. What a
-- tool does to the world outside is a change of a state `W` that the model leaves open.
pub mod Effects
pub mod Branches
pub mod Replay
use build_your_own_durable_a.Common.{
  ℕ, ◌-◌, String, Bool, true, false, not, ◌&&◌, ◌||◌, Option, none, some, List, ◌==◌, leb, elem,
  subset, if◌then◌else◌,
}
use build_your_own_durable_a.Common.Dict.{Dict, lookup}
use build_your_own_durable_a.Common.Result.{
  Error, Result, ok, err, not_found_error, security_policy_error, tool_execution_error,
  manual_review_required_error, value_error, key_error, validation_error,
}
use build_your_own_durable_a.Domain.Enums.{ToolCallStatus}
use build_your_own_durable_a.Domain.Models.{ToolDefinition, ToolCall, ToolResult, is_non_idempotent}
use build_your_own_durable_a.Tools.Journal.{
  Journal, is_failed, get_by_idempotency_key, record_intent, update_status, prepare_retry,
  record_result,
}

-- A registered tool (the protocol `Tool` of domain/protocols.py).
pub record Tool (J W : Type 0) : Type 0 where
  pub definition : ToolDefinition J
  pub run : J → W → Result J × W
  pub reconcile : ToolCall J → Result (Option (ToolResult J))

pub record ToolPolicy : Type 0 where
  pub allowed_permissions : List String
  pub approved_high_impact_tools : List String
  pub maximum_output_bytes : ℕ

-- jsonschema's validation, the digest and the size of canonical JSON, the redactor that the executor
-- is given, the truncated output, and the exit code that an output holds.
pub record Platform (J : Type 0) : Type 0 where
  pub conforms : J → J → Bool
  pub digest : J → String
  pub size : J → ℕ
  pub redact : J → J
  pub truncate : ℕ → J → J
  pub exit_code_of : J → Option J

pub record State (J W : Type 0) : Type 0 where
  pub journal : Journal J
  pub world : W

-- A call of `execute`, with the IDs that the generator returns and the readings of the clock.
pub record Request (J : Type 0) : Type 0 where
  pub run_id : String
  pub task_id : String
  pub tool_name : String
  pub arguments : J
  pub idempotency_key : String
  pub new_call_id : String
  pub new_result_id : String
  pub started : ℕ
  pub finished : ℕ

-- `except Exception`: a domain error is raised again, any other becomes a ToolExecutionError.
abbrev pub as_tool_error : Error → Error
as_tool_error value_error = tool_execution_error
as_tool_error key_error = tool_execution_error
as_tool_error validation_error = tool_execution_error
as_tool_error e = e

module _ {J W : Type 0} (p : Platform J) (policy : ToolPolicy) (registry : Dict (Tool J W)) where
  open p use {conforms, digest, size, redact, truncate, exit_code_of}

  unfoldable pub bound_output : J → J × Bool
  bound_output value =
      if leb (size value) policy.maximum_output_bytes
      then (value, false)
      else (truncate policy.maximum_output_bytes value, true)

  -- The tool's permissions, the approval of high-impact tools, and the schema of the input.
  unfoldable pub permitted : Request J → Result (Tool J W)
  permitted q = elim (lookup q.tool_name registry) [
    | none ↦ err not_found_error
    | some tool ↦
        let d : ToolDefinition J = tool.definition in
        if not (subset d.required_permissions policy.allowed_permissions)
        then err security_policy_error
        else if is_non_idempotent d.side_effect_class
            && not (elem q.tool_name policy.approved_high_impact_tools)
        then err security_policy_error
        else if conforms d.input_schema q.arguments
        then ok tool
        else err tool_execution_error
  ]

  -- A call of the tool and the check of its output, inside `try`.
  unfoldable pub attempt_tool : Tool J W → J → W → Result J × W
  attempt_tool tool arguments w =
      let (reply, w') = tool.run arguments w in
      (
        elim reply [
          | err e ↦ err (as_tool_error e)
          | ok out ↦
              if conforms tool.definition.output_schema out
              then ok out
              else err tool_execution_error
        ],
        w',
      )

  abbrev pub result_of : Request J → String → J → ToolResult J
  result_of q call_id raw =
      let (output, truncated) = bound_output (redact raw) in
      record {
        tool_result_id = q.new_result_id;
        tool_call_id = call_id;
        success = true;
        output = output;
        output_hash = digest output;
        exit_code = exit_code_of output;
        truncated = truncated;
        duration_seconds = q.finished - q.started;
      }

  -- The end of `execute`: the status FAILED and the error, or the result on record.
  unfoldable pub conclude :
      Request J → String → Journal J → Result J × W → Result (ToolResult J) × State J W
  conclude q call_id j (err e, w) =
      elim (update_status q.finished call_id ToolCallStatus.failed j) [
        | err x ↦ (err x, record { journal = j; world = w })
        | ok j' ↦ (err e, record { journal = j'; world = w })
      ]
  conclude q call_id j (ok raw, w) =
      let r : ToolResult J = result_of q call_id raw in
      elim (record_result q.finished r j) [
        | err x ↦ (err x, record { journal = j; world = w })
        | ok j' ↦ (ok r, record { journal = j'; world = w })
      ]

  -- From the status RUNNING on, with the call on record in the journal `j`.
  unfoldable pub run_call :
      Request J → Tool J W → String → Journal J → W → Result (ToolResult J) × State J W
  run_call q tool call_id j w = elim (update_status q.started call_id ToolCallStatus.running j) [
    | err x ↦ (err x, record { journal = j; world = w })
    | ok j' ↦ conclude q call_id j' (attempt_tool tool q.arguments w)
  ]

  abbrev pub new_call : Request J → Tool J W → ToolCall J
  new_call q tool = record {
    tool_call_id = q.new_call_id;
    run_id = q.run_id;
    task_id = q.task_id;
    tool_name = q.tool_name;
    arguments = q.arguments;
    arguments_hash = digest q.arguments;
    idempotency_key = q.idempotency_key;
    side_effect_class = tool.definition.side_effect_class;
    status = ToolCallStatus.intent_recorded;
    attempt = 1;
    started_at = none;
    finished_at = none;
  }

  -- The branches on the call that the key is already on record for.
  unfoldable pub dispatch :
      Request J
      → Tool J W
      → Option (ToolCall J × Option (ToolResult J))
      → State J W
      → Result (ToolResult J) × State J W
  dispatch q tool none s = elim (record_intent (new_call q tool) s.journal) [
    | err x ↦ (err x, s)
    | ok j ↦ run_call q tool q.new_call_id j s.world
  ]
  dispatch q tool (some (call, found)) s =
      if not (call.tool_name == q.tool_name) || not (call.arguments_hash == digest q.arguments)
      then (err security_policy_error, s)
      else elim found [
        | some r ↦ (ok r, s)
        | none ↦
            if is_failed call.status && tool.definition.retry_safe
            then elim (prepare_retry call.tool_call_id s.journal) [
              | err x ↦ (err x, s)
              | ok j ↦ run_call q tool call.tool_call_id j s.world
            ]
            else (err manual_review_required_error, s)
      ]

  unfoldable pub execute : Request J → State J W → Result (ToolResult J) × State J W
  execute q s = elim (permitted q) [
    | err x ↦ (err x, s)
    | ok tool ↦ dispatch q tool (get_by_idempotency_key q.idempotency_key s.journal) s
  ]
