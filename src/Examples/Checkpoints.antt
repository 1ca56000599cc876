-- ===== src/Examples/Checkpoints.antt =====
-- Two checkpoints of one run, and one that was written over an unreadable row.
use build_your_own_durable_a.Common.{
  ℕ, ◌+◌, ◌-◌, String, ◌≡◌, refl, ◌⊎◌, true, Option, none, some, List, [], ◌∷◌, ◌==◌, length, take,
  ltb, arith, if◌then◌else◌,
}
use build_your_own_durable_a.Common.Result.{ok, err, corrupt_checkpoint_error, value_error}
use build_your_own_durable_a.Domain.Enums.{RunState, TaskState, FailurePolicy}
use build_your_own_durable_a.Checkpoint.Envelope.{
  CheckpointPayload, CheckpointEnvelope, create, Codec, validate_payload, validate_envelope,
  model_validate_json, verify, chain_hash, from_untrusted_json,
}
use build_your_own_durable_a.Checkpoint.Chain.{
  Chain, is_verified, chain_is_valid, chain_is_valid-Chain,
}
use build_your_own_durable_a.Checkpoint.Rows.{
  CheckpointRow, row_of, checkpoint_tip_sequence, is_parent, parent_is_known, append_checkpoint,
  prune_checkpoints,
}
use build_your_own_durable_a.Checkpoint.Rows.Order.{
  IsDescending, ParentOf, append_checkpoint_lem, prune_checkpoints_lem,
}
use build_your_own_durable_a.Checkpoint.Manager.{
  References, parse_rows, recover_latest, build_payload, write_payload, append_created,
  finish_write,
}
use build_your_own_durable_a.Checkpoint.Manager.Recovery.{Newest, AllBroken, recover_latest_cases}
use build_your_own_durable_a.Checkpoint.Manager.Payload.{build_payload-valid}
use build_your_own_durable_a.Checkpoint.Manager.Retention.{prune_loses_recovery}
use build_your_own_durable_a.Checkpoint.Manager.Commit.{Committed, write_payload_lem}
use build_your_own_durable_a.Examples.Data.{spec_of, task_of, plan, run}

abbrev payload : CheckpointPayload
payload = record {
  run_id = "run";
  run_state = RunState.running;
  active_task_id = none;
  task_states = ("a", TaskState.succeeded) ∷ ("b", TaskState.ready) ∷ [];
  completed_task_ids = "a" ∷ [];
  pending_task_ids = "b" ∷ [];
  plan_id = "plan";
  plan_version = 1;
  context_ids = [];
  summary_ids = [];
  tool_calls = [];
  artifact_ids = [];
  evidence_ids = [];
  retry_counters = ("a", 1) ∷ ("b", 0) ∷ [];
  error = none;
  repository_snapshot_id = none;
  repository_manifest_hash = none;
  configuration_fingerprint = "config";
}

abbrev payload_hash : String
payload_hash = "aaaaaaaaaaaaaaaaaaaaaaaaaaaaaaaaaaaaaaaaaaaaaaaaaaaaaaaaaaaaaaaa"

abbrev hash_of : String → String
hash_of checkpoint_id =
    if checkpoint_id == "c1"
    then "1111111111111111111111111111111111111111111111111111111111111111"
    else if checkpoint_id == "c2"
    then "2222222222222222222222222222222222222222222222222222222222222222"
    else "3333333333333333333333333333333333333333333333333333333333333333"

abbrev envelope_of : String → ℕ → Option String → CheckpointEnvelope
envelope_of checkpoint_id sequence parent_hash = record {
  checkpoint_id = checkpoint_id;
  run_id = "run";
  schema_version = 1;
  sequence = sequence;
  parent_hash = parent_hash;
  payload = payload;
  payload_hash = payload_hash;
  created_at = 5;
}

abbrev old : CheckpointEnvelope
old = envelope_of "c1" 1 none

abbrev new : CheckpointEnvelope
new = envelope_of "c2" 2 (some (hash_of "c1"))

-- Written when the row above `old` could not be read.
abbrev later : CheckpointEnvelope
later = envelope_of "c3" 3 (some (hash_of "c1"))

-- The JSON of a checkpoint is its ID here, and its hash stands for its ID.
abbrev codec : Codec
codec = record {
  payload_digest = λ p. payload_hash;
  envelope_digest = λ e. hash_of e.checkpoint_id;
  dump = λ e. e.checkpoint_id;
  decode = λ value.
      if value == "c1"
      then some old
      else if value == "c2"
      then some new
      else if value == "c3"
      then some later
      else none;
}

abbrev corrupt : CheckpointRow
corrupt = record (row_of codec new) { envelope_json = "{" }

recover_latest_cases_example :
    ((e : CheckpointEnvelope) × ((recover_latest codec (row_of codec new ∷ row_of codec old ∷ [])).0
        ≡ ok e)
      × Newest codec e (parse_rows codec (row_of codec new ∷ row_of codec old ∷ [])))
    ⊎ (((recover_latest codec (row_of codec new ∷ row_of codec old ∷ [])).0
          ≡ err corrupt_checkpoint_error)
        × AllBroken codec (parse_rows codec (row_of codec new ∷ row_of codec old ∷ [])))
unfolding model_validate_json validate_envelope validate_payload chain_hash
recover_latest_cases_example =
    recover_latest_cases codec (row_of codec new ∷ row_of codec old ∷ []) refl

chain_is_valid-Chain_example : Chain codec new (some old ∷ [])
unfolding chain_is_valid verify chain_hash
chain_is_valid-Chain_example = chain_is_valid-Chain codec new (some old ∷ []) refl

append_checkpoint_lem_example :
    (row_of codec new ∷ row_of codec old ∷ [] ≡ row_of codec new ∷ row_of codec old ∷ [])
    × (2 ≡ checkpoint_tip_sequence (row_of codec old ∷ []) + 1)
    × (verify codec new ≡ ok tt)
    × ParentOf codec (some (hash_of "c1")) (row_of codec old ∷ [])
    × IsDescending (row_of codec new ∷ row_of codec old ∷ [])
unfolding append_checkpoint parent_is_known verify chain_hash from_untrusted_json validate_envelope
    validate_payload model_validate_json is_parent
append_checkpoint_lem_example =
    append_checkpoint_lem codec new 1 (row_of codec old ∷ [])
      (row_of codec new ∷ row_of codec old ∷ []) (tt, tt) refl

abbrev three_rows : List CheckpointRow
three_rows = row_of codec later ∷ corrupt ∷ row_of codec old ∷ []

prune_checkpoints_lem_example :
    prune_checkpoints 2 three_rows
    ≡ (if ltb 2 2 then err value_error else ok (length three_rows - 2, take 2 three_rows))
prune_checkpoints_lem_example =
    prune_checkpoints_lem 2 three_rows
      ((omega arith, (omega arith, tt)), ((omega arith, tt), (tt, tt)))

abbrev references : References ℕ
references = record {
  persisted_contexts = "x" ∷ [];
  persisted_summaries = [];
  persisted_tools = [];
  persisted_artifacts = [];
  persisted_evidence = [];
  latest_error = none;
  context_ids = "x" ∷ "y" ∷ [];
  summary_ids = [];
  tool_calls = [];
  artifact_ids = [];
  evidence_ids = [];
  error = none;
  repository_manifest_hash = none;
}

build_payload-valid_example :
    let tasks = task_of (spec_of "a" [] FailurePolicy.retry true) TaskState.succeeded 1 ∷ [] in
    validate_payload (build_payload run plan tasks references)
    ≡ ok (build_payload run plan tasks references)
build_payload-valid_example =
    build_payload-valid run plan
      (task_of (spec_of "a" [] FailurePolicy.retry true) TaskState.succeeded 1 ∷ []) references
      (omega arith)

prune_loses_recovery_example :
    ((recover_latest codec three_rows).0 ≡ ok later)
    × (prune_checkpoints 2 three_rows ≡ ok (1, row_of codec later ∷ corrupt ∷ []))
    × ((recover_latest codec (row_of codec later ∷ corrupt ∷ [])).0 ≡ err corrupt_checkpoint_error)
unfolding model_validate_json validate_envelope validate_payload is_verified verify chain_hash
prune_loses_recovery_example =
    prune_loses_recovery codec later old (row_of codec later) corrupt (row_of codec old) refl refl
      refl refl refl refl (omega arith) (omega arith) (omega arith)

write_payload_lem_example :
    (parent : CheckpointEnvelope) × ((recover_latest codec (row_of codec old ∷ [])).0 ≡ ok parent)
    × Committed codec 5 "c2" 5 payload
        (some (chain_hash codec parent))
        (row_of codec old ∷ [])
        (row_of codec new ∷ row_of codec old ∷ [])
        new
unfolding write_payload append_created create finish_write recover_latest chain_is_valid verify
    chain_hash model_validate_json validate_envelope validate_payload append_checkpoint
    parent_is_known is_parent from_untrusted_json prune_checkpoints
write_payload_lem_example =
    write_payload_lem codec 5 "c2" 5 payload (row_of codec old) [] new (tt, tt) refl
