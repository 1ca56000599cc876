-- ===== src/Checkpoint/Manager.antt =====
-- checkpoints/manager.py: `write` and `recover_latest`.
pub mod Recovery
pub mod Payload
pub mod Retention
pub mod Commit
use build_your_own_durable_a.Common.{
  ℕ, ◌+◌, String, true, false, not, Option, none, some, List, [], ◌∷◌, ◌++◌, map,
}
use build_your_own_durable_a.Common.Dict.{Dict, put, keys, lookup, keys_where, unique}
use build_your_own_durable_a.Common.Sort.{sort, text_leb}
use build_your_own_durable_a.Common.Result.{Result, ok, err, corrupt_checkpoint_error}
use build_your_own_durable_a.Domain.Enums.{TaskState}
use build_your_own_durable_a.Domain.Models.{RunRecord, PlanSpec, TaskRecord, ToolCall}
use build_your_own_durable_a.Checkpoint.Envelope.{
  CheckpointEnvelope, CheckpointPayload, ToolCallCheckpoint, ErrorCheckpoint, Codec, is_succeeded,
  model_validate_json, create, chain_hash,
}
use build_your_own_durable_a.Checkpoint.Chain.{Parsed, chain_is_valid}
use build_your_own_durable_a.Checkpoint.Rows.{
  CheckpointRow, list_checkpoint_json, checkpoint_tip_sequence, append_checkpoint,
  prune_checkpoints,
}

-- A rejected row: its position, and its checkpoint ID where it could be parsed.
abbrev pub Failures : Type 0
Failures = List (ℕ × Option String)

pub data CheckpointEvent : Type 0 where
  checkpoint_written : String → ℕ → CheckpointEvent
  checkpoint_recovered : String → ℕ → Failures → CheckpointEvent
  checkpoint_recovery_failed : Failures → CheckpointEvent

abbrev pub id_of : Option CheckpointEnvelope → Option String
id_of none = none
id_of (some e) = some e.checkpoint_id

abbrev pub recovered_events : CheckpointEnvelope → Failures → List CheckpointEvent
recovered_events e [] = []
recovered_events e (f ∷ fs) = checkpoint_recovered e.checkpoint_id e.sequence (f ∷ fs) ∷ []

module _ (c : Codec) where
  abbrev pub parse_row : String → Option CheckpointEnvelope
  parse_row value = elim (model_validate_json c value) [ ok e ↦ some e | err _ ↦ none ]

  abbrev pub parse_rows : List CheckpointRow → Parsed
  parse_rows rows = map parse_row (list_checkpoint_json rows)

  -- The loop of `recover_latest`, with the rows that it rejected so far.
  unfoldable pub recover_from :
      ℕ → Failures → Parsed → Result CheckpointEnvelope × List CheckpointEvent
  recover_from index failures [] =
      (err corrupt_checkpoint_error, checkpoint_recovery_failed failures ∷ [])
  recover_from index failures (none ∷ rest) =
      recover_from (index + 1) (failures ++ (index, none) ∷ []) rest
  recover_from index failures (some e ∷ rest) = elim (chain_is_valid c (some e ∷ rest)) [
    | true ↦ (ok e, recovered_events e failures)
    | false ↦ recover_from (index + 1) (failures ++ (index, some e.checkpoint_id) ∷ []) rest
  ]

  abbrev recover_parsed : Parsed → Result CheckpointEnvelope × List CheckpointEvent
  recover_parsed [] = (err corrupt_checkpoint_error, [])
  recover_parsed (p ∷ parsed) = recover_from 0 [] (p ∷ parsed)

  unfoldable pub recover_latest :
      List CheckpointRow → Result CheckpointEnvelope × List CheckpointEvent
  unfolding recover_from
  recover_latest rows = recover_parsed (parse_rows rows)

-- What `write` reads from the other tables of the store, and what its caller hands in.
pub record References (J : Type 0) : Type 0 where
  pub persisted_contexts : List String
  pub persisted_summaries : List String
  pub persisted_tools : List (ToolCall J)
  pub persisted_artifacts : List String
  pub persisted_evidence : List String
  pub latest_error : Option ErrorCheckpoint
  pub context_ids : List String
  pub summary_ids : List String
  pub tool_calls : List (ToolCall J)
  pub artifact_ids : List String
  pub evidence_ids : List String
  pub error : Option ErrorCheckpoint
  pub repository_manifest_hash : Option String

abbrev pub merge_ids : List String → List String → List String
merge_ids persisted supplied = unique [] (persisted ++ supplied)

abbrev pub or_else : {A : Type 0} → Option A → Option A → Option A
or_else (some a) other = some a
or_else none other = other

abbrev pub task_states_of : List TaskRecord → Dict TaskState → Dict TaskState
task_states_of [] d = d
task_states_of (t ∷ ts) d = task_states_of ts (put t.spec.task_id t.state d)

abbrev pub retry_counters_of : List TaskRecord → Dict ℕ → Dict ℕ
retry_counters_of [] d = d
retry_counters_of (t ∷ ts) d = retry_counters_of ts (put t.spec.task_id t.attempt_count d)

module _ {J : Type 0} where
  abbrev pub tools_by_id : List (ToolCall J) → Dict (ToolCall J) → Dict (ToolCall J)
  tools_by_id [] d = d
  tools_by_id (call ∷ calls) d = tools_by_id calls (put call.tool_call_id call d)

  abbrev pub pick : Dict (ToolCall J) → List String → List ToolCallCheckpoint
  pick d [] = []
  pick d (k ∷ ks) = elim (lookup k d) [
    | none ↦ pick d ks
    | some call ↦
        record {
          tool_call_id = call.tool_call_id;
          idempotency_key = call.idempotency_key;
          status = call.status;
          side_effect_class = call.side_effect_class;
        }
        ∷ pick d ks
  ]

  unfoldable pub build_payload :
      RunRecord → PlanSpec → List TaskRecord → References J → CheckpointPayload
  build_payload run plan tasks refs =
      let states : Dict TaskState = task_states_of tasks [] in
      let tools : Dict (ToolCall J) = tools_by_id (refs.persisted_tools ++ refs.tool_calls) [] in
      record {
        run_id = run.run_id;
        run_state = run.state;
        active_task_id = run.active_task_id;
        task_states = states;
        completed_task_ids = sort text_leb (keys_where is_succeeded states);
        pending_task_ids = sort text_leb (keys_where (λ s. not (is_succeeded s)) states);
        plan_id = plan.plan_id;
        plan_version = plan.version;
        context_ids = merge_ids refs.persisted_contexts refs.context_ids;
        summary_ids = merge_ids refs.persisted_summaries refs.summary_ids;
        tool_calls = pick tools (sort text_leb (keys tools));
        artifact_ids = merge_ids refs.persisted_artifacts refs.artifact_ids;
        evidence_ids = merge_ids refs.persisted_evidence refs.evidence_ids;
        retry_counters = retry_counters_of tasks [];
        error = or_else refs.error refs.latest_error;
        repository_snapshot_id = run.repository_snapshot_id;
        repository_manifest_hash = refs.repository_manifest_hash;
        configuration_fingerprint = run.configuration_fingerprint;
      }

-- What a call of `write` leaves: its reply, the rows, and the events that it published.
pub record Written : Type 0 where
  pub reply : Result CheckpointEnvelope
  pub rows : List CheckpointRow
  pub events : List CheckpointEvent

module _ (c : Codec) (retention_count : ℕ) (checkpoint_id : String) (created_at : ℕ) where
  -- The publication of `checkpoint.written` and the pruning, after the append.
  unfoldable pub finish_write :
      CheckpointEnvelope → List CheckpointEvent → List CheckpointRow → Written
  finish_write e events rows =
      let written : List CheckpointEvent =
        events ++ checkpoint_written e.checkpoint_id e.sequence ∷ [] in
      elim (prune_checkpoints retention_count rows) [
        | err x ↦ record { reply = err x; rows = rows; events = written }
        | ok (_, kept) ↦ record { reply = ok e; rows = kept; events = written }
      ]

  unfoldable pub append_created :
      CheckpointPayload → List CheckpointRow → Option String → List CheckpointEvent → Written
  unfolding finish_write
  append_created payload rows parent_hash events =
      let tip : ℕ = checkpoint_tip_sequence rows in
      elim (create c checkpoint_id (tip + 1) payload parent_hash created_at) [
        | err x ↦ record { reply = err x; rows = rows; events = events }
        | ok e ↦ elim (append_checkpoint c e tip rows) [
          | err x ↦ record { reply = err x; rows = rows; events = events }
          | ok rows' ↦ finish_write e events rows'
        ]
      ]

  -- `expected_sequence` is 0 and there is no parent where there is no row yet.
  unfoldable pub write_payload : CheckpointPayload → List CheckpointRow → Written
  unfolding append_created
  write_payload payload [] = append_created payload [] none []
  write_payload payload (r ∷ rows) =
      let (latest, events) = recover_latest c (r ∷ rows) in
      elim latest [
        | err x ↦ record { reply = err x; rows = r ∷ rows; events = events }
        | ok e ↦ append_created payload (r ∷ rows) (some (chain_hash c e)) events
      ]

  unfoldable pub write :
      {J : Type 0}
      → RunRecord
      → PlanSpec
      → List TaskRecord
      → References J
      → List CheckpointRow
      → Written
  unfolding build_payload write_payload
  write run plan tasks refs rows = write_payload (build_payload run plan tasks refs) rows
