-- ===== src/Tools/Reconcile.antt =====
-- tools/executor.py: `ToolExecutor.reconcile_uncertain`.
pub mod Outcome
pub mod Answers
use build_your_own_durable_a.Common.{
  ℕ, String, not, Option, none, some, List, [], ◌∷◌, if◌then◌else◌,
}
use build_your_own_durable_a.Common.Dict.{Dict, lookup}
use build_your_own_durable_a.Common.Result.{
  Result, ok, err, not_found_error, manual_review_required_error,
}
use build_your_own_durable_a.Domain.Enums.{ToolCallStatus}
use build_your_own_durable_a.Domain.Models.{ToolCall, ToolResult, is_non_idempotent}
use build_your_own_durable_a.Tools.Journal.{Journal, update_status, record_result, uncertain_calls}
use build_your_own_durable_a.Tools.Executor.{Tool}

module _ {J W : Type 0} (registry : Dict (Tool J W)) (now : ℕ) where
  -- The branches on what the tool knows of the call: the journal, and the result or the error. The
  -- status NEEDS_REVIEW is committed before the error is raised.
  unfoldable pub settle_answer :
      Tool J W
      → ToolCall J
      → Result (Option (ToolResult J))
      → Journal J
      → Result (Option (ToolResult J)) × Journal J
  settle_answer tool call (err x) j = (err x, j)
  settle_answer tool call (ok (some r)) j = elim (record_result now r j) [
    | err x ↦ (err x, j)
    | ok j' ↦ (ok (some r), j')
  ]
  settle_answer tool call (ok none) j =
      if is_non_idempotent call.side_effect_class
      then elim (update_status now call.tool_call_id ToolCallStatus.needs_review j) [
        | err x ↦ (err x, j)
        | ok j' ↦ (err manual_review_required_error, j')
      ]
      else if not tool.definition.retry_safe
      then elim (update_status now call.tool_call_id ToolCallStatus.needs_review j) [
        | err x ↦ (err x, j)
        | ok j' ↦ (err manual_review_required_error, j')
      ]
      else elim (update_status now call.tool_call_id ToolCallStatus.failed j) [
        | err x ↦ (err x, j)
        | ok j' ↦ (ok none, j')
      ]

  -- One round of the loop.
  unfoldable pub reconcile_call :
      ToolCall J → Journal J → Result (Option (ToolResult J)) × Journal J
  unfolding settle_answer
  reconcile_call call j = elim (lookup call.tool_name registry) [
    | none ↦ (err not_found_error, j)
    | some tool ↦ settle_answer tool call (tool.reconcile call) j
  ]

  abbrev pub add_found : Option (ToolResult J) → List (ToolResult J) → List (ToolResult J)
  add_found none rs = rs
  add_found (some r) rs = r ∷ rs

  -- The loop over the calls that were uncertain at its start.
  unfoldable pub reconcile_all :
      List (ToolCall J) → Journal J → Result (List (ToolResult J)) × Journal J
  unfolding reconcile_call
  reconcile_all [] j = (ok [], j)
  reconcile_all (call ∷ calls) j =
      let (found, j') = reconcile_call call j in
      let (rest, j'') = reconcile_all calls j' in
      elim found [
        | err x ↦ (err x, j')
        | ok o ↦ elim rest [ err x ↦ (err x, j'') | ok rs ↦ (ok (add_found o rs), j'') ]
      ]

  unfoldable pub reconcile_uncertain : String → Journal J → Result (List (ToolResult J)) × Journal J
  unfolding reconcile_all
  reconcile_uncertain run_id j = reconcile_all (uncertain_calls run_id j) j
