-- ===== src/Checkpoint/Envelope.antt =====
-- domain/checkpoint.py: the payload, its validator, and the hash-chained envelope.
use Prim.Native.Char.{code}
use Prim.Native.String.{count}
use build_your_own_durable_a.Common.{
  ℕ, String, Bool, true, not, ◌&&◌, ◌||◌, Option, none, some, List, ◌==◌, eqb, ltb, subset,
  disjoint,
}
use build_your_own_durable_a.Common.Dict.{Dict, keys, keys_where}
use build_your_own_durable_a.Common.Result.{
  Result, ok, err, validation_error, corrupt_checkpoint_error, unsupported_schema_version_error,
  ErrorCategory, ◌>>=◌, ◌>>◌, refuse_if,
}
use build_your_own_durable_a.Domain.Models.{within}
use build_your_own_durable_a.Domain.Enums.{
  RunState, TaskState, ToolCallStatus, SideEffectClass, task_state_eq,
}

pub record ToolCallCheckpoint : Type 0 where
  pub tool_call_id : String
  pub idempotency_key : String
  pub status : ToolCallStatus
  pub side_effect_class : SideEffectClass

pub record ErrorCheckpoint : Type 0 where
  pub error_id : String
  pub category : ErrorCategory
  pub message : String
  pub retryable : Bool

pub record CheckpointPayload : Type 0 where
  pub run_id : String
  pub run_state : RunState
  pub active_task_id : Option String
  pub task_states : Dict TaskState
  pub completed_task_ids : List String
  pub pending_task_ids : List String
  pub plan_id : String
  pub plan_version : ℕ
  pub context_ids : List String
  pub summary_ids : List String
  pub tool_calls : List ToolCallCheckpoint
  pub artifact_ids : List String
  pub evidence_ids : List String
  pub retry_counters : Dict ℕ
  pub error : Option ErrorCheckpoint
  pub repository_snapshot_id : Option String
  pub repository_manifest_hash : Option String
  pub configuration_fingerprint : String

abbrev pub is_succeeded : TaskState → Bool
is_succeeded s = task_state_eq s TaskState.succeeded

-- `task_sets_are_consistent`, after the bound on `plan_version`. A counter is a natural number.
unfoldable pub validate_payload : CheckpointPayload → Result CheckpointPayload
validate_payload p = do
  let known = keys p.task_states
  let succeeded = keys_where is_succeeded p.task_states
  refuse_if (ltb p.plan_version 1) validation_error
  refuse_if (not (disjoint p.completed_task_ids p.pending_task_ids)) validation_error
  refuse_if (not (subset p.completed_task_ids known) || not (subset p.pending_task_ids known))
      validation_error
  refuse_if (not (subset p.completed_task_ids succeeded && subset succeeded p.completed_task_ids))
      validation_error
  ok p

pub record CheckpointEnvelope : Type 0 where
  pub checkpoint_id : String
  pub run_id : String
  pub schema_version : ℕ
  pub sequence : ℕ
  pub parent_hash : Option String
  pub payload : CheckpointPayload
  pub payload_hash : String
  pub created_at : ℕ

abbrev pub current_checkpoint_schema_version : ℕ
current_checkpoint_schema_version = 1

-- A digit or a letter from a to f.
abbrev pub is_hex_code : ℕ → Bool
is_hex_code c = within b'0' b'9' c || within b'a' b'f' c

abbrev pub is_hex_text : String → Bool
is_hex_text String.[] = true
is_hex_text (String.◌∷◌ c s) = is_hex_code (code c) && is_hex_text s

-- `^[0-9a-f]{64}$`
abbrev pub is_hash : String → Bool
is_hash s = is_hex_text s && eqb (count s) 64

abbrev pub is_hash_or_none : Option String → Bool
is_hash_or_none none = true
is_hash_or_none (some s) = is_hash s

-- SHA-256 of the canonical JSON of a payload and of an envelope (`sha256_digest`, `canonical_json`:
-- hashlib and json), and pydantic's JSON encoder and decoder of the fields of an envelope.
pub record Codec : Type 0 where
  pub payload_digest : CheckpointPayload → String
  pub envelope_digest : CheckpointEnvelope → String
  pub dump : CheckpointEnvelope → String
  pub decode : String → Option CheckpointEnvelope

module _ (c : Codec) where
  open c use {payload_digest, envelope_digest, decode}

  -- The Literal, the bounds and the patterns, the payload's validator, then `identifiers_agree`.
  unfoldable pub validate_envelope : CheckpointEnvelope → Result CheckpointEnvelope
  validate_envelope e = do
    refuse_if (not (eqb e.schema_version current_checkpoint_schema_version)) validation_error
    refuse_if (ltb e.sequence 1) validation_error
    refuse_if (not (is_hash_or_none e.parent_hash) || not (is_hash e.payload_hash)) validation_error
    _ ← validate_payload e.payload
    refuse_if (not (e.run_id == e.payload.run_id)) validation_error
    ok e

  -- `CheckpointEnvelope.model_validate_json`.
  unfoldable pub model_validate_json : String → Result CheckpointEnvelope
  unfolding validate_envelope
  model_validate_json value = elim (decode value) [
    | none ↦ err validation_error
    | some e ↦ validate_envelope e
  ]

  unfoldable pub create :
      String → ℕ → CheckpointPayload → Option String → ℕ → Result CheckpointEnvelope
  unfolding validate_envelope
  create checkpoint_id sequence payload parent_hash created_at = validate_envelope (record {
    checkpoint_id = checkpoint_id;
    run_id = payload.run_id;
    schema_version = current_checkpoint_schema_version;
    sequence = sequence;
    parent_hash = parent_hash;
    payload = payload;
    payload_hash = payload_digest payload;
    created_at = created_at;
  })

  unfoldable pub verify : CheckpointEnvelope → Result (Unit {0})
  verify e = do
    refuse_if (not (eqb e.schema_version current_checkpoint_schema_version))
        unsupported_schema_version_error
    refuse_if (not (payload_digest e.payload == e.payload_hash)) corrupt_checkpoint_error

  unfoldable pub chain_hash : CheckpointEnvelope → String
  chain_hash e = envelope_digest e

  unfoldable pub from_untrusted_json : String → Result CheckpointEnvelope
  unfolding model_validate_json verify
  from_untrusted_json value = do e ← model_validate_json value; verify e; ok e
