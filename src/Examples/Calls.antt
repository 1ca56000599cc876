-- ===== src/Examples/Calls.antt =====
-- Tool calls: a tool that writes to the world, requested twice, and calls that were interrupted. JSON
-- values are numbers here, and the world is the list of the arguments that the tools have run with.
use build_your_own_durable_a.Common.{
  ℕ, All, ◌≡◌, refl, ◌⊎◌, true, false, none, some, List, [], ◌∷◌, arith,
}
use build_your_own_durable_a.Common.Dict.{Dict}
use build_your_own_durable_a.Common.Result.{ok}
use build_your_own_durable_a.Domain.Enums.{ToolCallStatus, SideEffectClass}
use build_your_own_durable_a.Domain.Models.{ToolCall, ToolResult, validate_tool_definition}
use build_your_own_durable_a.Tools.Journal.{
  Journal, update_call, find_call, find_key, find_result, get_by_idempotency_key, record_intent,
  update_status, record_result, uncertain_calls,
}
use build_your_own_durable_a.Tools.Executor.{
  Tool, ToolPolicy, Platform, State, Request, permitted, bound_output, attempt_tool, conclude,
  run_call, dispatch, execute,
}
use build_your_own_durable_a.Tools.Executor.Effects.{RanOnce}
use build_your_own_durable_a.Tools.Executor.Branches.{Allowed, Quiet}
use build_your_own_durable_a.Tools.Executor.Replay.{
  execute_cases, execute_again, non_idempotent_runs_once,
}
use build_your_own_durable_a.Tools.Reconcile.{
  settle_answer, reconcile_call, reconcile_all, reconcile_uncertain,
}
use build_your_own_durable_a.Tools.Reconcile.Outcome.{AnswersForCall, reconcile_uncertain_settles}
use build_your_own_durable_a.Tools.Reconcile.Answers.{IsSettleable, reconcile_uncertain_answers}

abbrev World : Type 0
World = List ℕ

abbrev platform : Platform ℕ
platform = record {
  conforms = λ schema value. true;
  digest = λ value. "digest";
  size = λ value. value;
  redact = λ value. value;
  truncate = λ limit value. limit;
  exit_code_of = λ value. none;
}

abbrev writer : Tool ℕ World
writer = record {
  definition = record {
    name = "write";
    input_schema = 0;
    output_schema = 0;
    required_permissions = "write" ∷ [];
    side_effect_class = SideEffectClass.non_idempotent;
    retry_safe = false;
    produces_evidence = false;
  };
  run = λ value world. (ok value, value ∷ world);
  reconcile = λ call. ok none;
}

abbrev registry : Dict (Tool ℕ World)
registry = ("write", writer) ∷ []

abbrev policy : ToolPolicy
policy = record {
  allowed_permissions = "write" ∷ [];
  approved_high_impact_tools = "write" ∷ [];
  maximum_output_bytes = 100;
}

abbrev request : Request ℕ
request = record {
  run_id = "run";
  task_id = "a";
  tool_name = "write";
  arguments = 5;
  idempotency_key = "key";
  new_call_id = "call-1";
  new_result_id = "result-1";
  started = 10;
  finished = 12;
}

-- The request after a restart: only the key, the tool and the arguments are as before.
abbrev second_request : Request ℕ
second_request = record request {
  new_call_id = "call-2";
  new_result_id = "result-2";
  started = 20;
  finished = 20;
}

abbrev fresh : State ℕ World
fresh = record { journal = record { runs = "run" ∷ []; calls = []; results = [] }; world = [] }

abbrev result : ToolResult ℕ
result = record {
  tool_result_id = "result-1";
  tool_call_id = "call-1";
  success = true;
  output = 5;
  output_hash = "digest";
  exit_code = none;
  truncated = false;
  duration_seconds = 2;
}

abbrev after : State ℕ World
after = (execute platform policy registry request fresh).1

execute_again_example : execute platform policy registry second_request after ≡ (ok result, after)
unfolding execute permitted dispatch run_call attempt_tool conclude bound_output
    get_by_idempotency_key find_key find_call find_result record_intent update_status update_call
    record_result
execute_again_example =
    execute_again platform policy registry request second_request fresh after result refl refl refl
      refl

execute_cases_example :
    let out = execute platform policy registry request fresh in
    Quiet platform policy registry request fresh out.0 out.1
    ⊎ ((tool : Tool ℕ World) × Allowed platform policy registry request tool
        × RanOnce platform policy registry request tool fresh out.0 out.1)
execute_cases_example = execute_cases platform policy registry request fresh

-- A call that was interrupted while it ran.
abbrev interrupted : ToolCall ℕ
interrupted = record {
  tool_call_id = "call-1";
  run_id = "run";
  task_id = "a";
  tool_name = "write";
  arguments = 5;
  arguments_hash = "digest";
  idempotency_key = "key";
  side_effect_class = SideEffectClass.non_idempotent;
  status = ToolCallStatus.running;
  attempt = 1;
  started_at = some 10;
  finished_at = none;
}

abbrev crashed : Journal ℕ
crashed = record { runs = "run" ∷ []; calls = interrupted ∷ []; results = [] }

non_idempotent_runs_once_example :
    (execute platform policy registry second_request
      (record { journal = crashed; world = 5 ∷ [] })).1
    ≡ record { journal = crashed; world = 5 ∷ [] }
unfolding validate_tool_definition get_by_idempotency_key find_key find_result
non_idempotent_runs_once_example =
    non_idempotent_runs_once platform policy registry second_request
      (record { journal = crashed; world = 5 ∷ [] }) writer (interrupted, none) refl refl refl refl

-- A tool that knows the results of its calls.
abbrev reader : Tool ℕ World
reader = record writer {
  reconcile = λ call. ok (some (record result { tool_call_id = call.tool_call_id }));
}

abbrev readers : Dict (Tool ℕ World)
readers = ("write", reader) ∷ []

readers_answer : AnswersForCall readers 30
readers_answer = λ name tool call r found told. ground (arith, found, told)

reconcile_uncertain_settles_example :
    uncertain_calls "run" (reconcile_uncertain readers 30 "run" crashed).1 ≡ []
unfolding reconcile_uncertain uncertain_calls reconcile_all reconcile_call settle_answer
    record_result find_call find_result update_call
reconcile_uncertain_settles_example =
    reconcile_uncertain_settles readers 30 "run" crashed
      (reconcile_uncertain readers 30 "run" crashed).1 (result ∷ []) readers_answer refl refl

reconcile_uncertain_answers_example : All (IsSettleable readers 30) (uncertain_calls "run" crashed)
unfolding reconcile_uncertain uncertain_calls reconcile_all reconcile_call settle_answer
    record_result find_call find_result update_call
reconcile_uncertain_answers_example =
    reconcile_uncertain_answers readers 30 "run" crashed
      (reconcile_uncertain readers 30 "run" crashed).1 (result ∷ []) refl
