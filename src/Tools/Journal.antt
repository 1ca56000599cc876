-- ===== src/Tools/Journal.antt =====
-- persistence/store.py: the tool journal, `get_by_idempotency_key` to `list_tool_calls`. Each method
-- is one transaction: an error leaves the journal as it was.
pub mod Laws
use build_your_own_durable_a.Common.{
  ℕ, ◌+◌, String, Bool, true, false, not, ◌&&◌, ◌||◌, Option, none, some, List, [], ◌∷◌, ◌++◌, ◌==◌,
  any, keep, find, elem, is_some, if◌then◌else◌,
}
use build_your_own_durable_a.Common.Result.{
  Result, ok, err, idempotency_conflict_error, not_found_error, concurrency_conflict_error, ◌>>◌,
  refuse_if,
}
use build_your_own_durable_a.Domain.Enums.{ToolCallStatus}
use build_your_own_durable_a.Domain.Models.{ToolCall, ToolResult}

-- The calls, their results, and the IDs of the runs that a call's foreign key may name.
pub record Journal (J : Type 0) : Type 0 where
  pub runs : List String
  pub calls : List (ToolCall J)
  pub results : List (ToolResult J)

abbrev pub is_failed : ToolCallStatus → Bool
is_failed ToolCallStatus.failed = true
is_failed _ = false

abbrev pub is_running : ToolCallStatus → Bool
is_running ToolCallStatus.running = true
is_running _ = false

-- The statuses after which a call has ended.
abbrev pub is_finished : ToolCallStatus → Bool
is_finished ToolCallStatus.succeeded = true
is_finished ToolCallStatus.failed = true
is_finished ToolCallStatus.needs_review = true
is_finished _ = false

abbrev pub is_uncertain : ToolCallStatus → Bool
is_uncertain ToolCallStatus.intent_recorded = true
is_uncertain ToolCallStatus.running = true
is_uncertain ToolCallStatus.uncertain = true
is_uncertain _ = false

module _ {J : Type 0} where
  -- UPDATE tool_calls .. WHERE tool_call_id = ..: the primary key names one row at most.
  unfoldable pub update_call :
      String → (ToolCall J → ToolCall J) → List (ToolCall J) → List (ToolCall J)
  update_call call_id f [] = []
  update_call call_id f (call ∷ calls) =
      if call.tool_call_id == call_id then f call ∷ calls else call ∷ update_call call_id f calls

  unfoldable pub find_call : String → List (ToolCall J) → Option (ToolCall J)
  find_call call_id calls = find (λ (call : ToolCall J). call.tool_call_id == call_id) calls

  unfoldable pub find_key : String → List (ToolCall J) → Option (ToolCall J)
  find_key key calls = find (λ (call : ToolCall J). call.idempotency_key == key) calls

  unfoldable pub find_result : String → List (ToolResult J) → Option (ToolResult J)
  find_result call_id results = find (λ (r : ToolResult J). r.tool_call_id == call_id) results

  unfoldable pub get_by_idempotency_key :
      String → Journal J → Option (ToolCall J × Option (ToolResult J))
  get_by_idempotency_key key j = elim (find_key key j.calls) [
    | none ↦ none
    | some call ↦ some (call, find_result call.tool_call_id j.results)
  ]

  -- The call's ID is the primary key, its idempotency key is unique, and its run must exist (a foreign
  -- key).
  unfoldable pub record_intent : ToolCall J → Journal J → Result (Journal J)
  record_intent call j =
      if is_some (find_call call.tool_call_id j.calls)
        || is_some (find_key call.idempotency_key j.calls)
        || not (elem call.run_id j.runs)
      then err idempotency_conflict_error
      else ok (record j { calls = j.calls ++ call ∷ [] })

  abbrev pub with_status : ℕ → ToolCallStatus → ToolCall J → ToolCall J
  with_status now status call = record call {
    status = status;
    started_at = if is_running status then some now else call.started_at;
    finished_at = if is_finished status then some now else call.finished_at;
  }

  unfoldable pub update_status : ℕ → String → ToolCallStatus → Journal J → Result (Journal J)
  update_status now call_id status j =
      if is_some (find_call call_id j.calls)
      then ok (record j { calls = update_call call_id (with_status now status) j.calls })
      else err not_found_error

  abbrev pub reopened : ToolCall J → ToolCall J
  reopened call = record call {
    status = ToolCallStatus.intent_recorded;
    attempt = call.attempt + 1;
    started_at = none;
    finished_at = none;
  }

  unfoldable pub prepare_retry : String → Journal J → Result (Journal J)
  prepare_retry call_id j = do
    refuse_if (is_some (find_result call_id j.results)) concurrency_conflict_error
    elim (find_call call_id j.calls) [
      | none ↦ err concurrency_conflict_error
      | some call ↦
          if is_failed call.status
          then ok (record j { calls = update_call call_id reopened j.calls })
          else err concurrency_conflict_error
    ]

  -- The result's ID and its call are unique, and the call must exist (a foreign key).
  unfoldable pub record_result : ℕ → ToolResult J → Journal J → Result (Journal J)
  record_result now r j =
      if any (λ (s : ToolResult J). s.tool_result_id == r.tool_result_id) j.results
        || is_some (find_result r.tool_call_id j.results)
        || not (is_some (find_call r.tool_call_id j.calls))
      then err idempotency_conflict_error
      else let status : ToolCallStatus =
          if r.success then ToolCallStatus.succeeded else ToolCallStatus.failed in
        ok (record j {
          calls =
              update_call r.tool_call_id
                (λ call. record call { status = status; finished_at = some now }) j.calls;
          results = j.results ++ r ∷ [];
        })

  unfoldable pub uncertain_calls : String → Journal J → List (ToolCall J)
  uncertain_calls run_id j =
      keep (λ (call : ToolCall J). call.run_id == run_id && is_uncertain call.status) j.calls
