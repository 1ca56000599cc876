-- ===== src/Checkpoint/Rows.antt =====
-- persistence/store.py: `append_checkpoint`, `list_checkpoint_json`, `checkpoint_tip_sequence` and
-- `prune_checkpoints`. The rows are those of one run, newest first: every query of the code selects
-- the rows of a run in descending order of sequence.
pub mod Order
use build_your_own_durable_a.Common.{
  ℕ, zero, suc, ◌+◌, ◌-◌, String, Bool, false, not, ◌||◌, Option, none, some, List, [], ◌∷◌, ◌==◌,
  eqb, ltb, any, keep, map, length, same_text, is_some, if◌then◌else◌,
}
use build_your_own_durable_a.Common.Result.{
  Result, ok, err, concurrency_conflict_error, value_error, ◌>>◌, refuse_if,
}
use build_your_own_durable_a.Checkpoint.Envelope.{
  CheckpointEnvelope, Codec, verify, chain_hash, from_untrusted_json,
}

pub record CheckpointRow : Type 0 where
  pub checkpoint_id : String
  pub schema_version : ℕ
  pub sequence : ℕ
  pub parent_hash : Option String
  pub payload_hash : String
  pub envelope_json : String

abbrev pub list_checkpoint_json : List CheckpointRow → List String
list_checkpoint_json = map (λ (r : CheckpointRow). r.envelope_json)

-- The greatest sequence, 0 where there is no row.
abbrev pub checkpoint_tip_sequence : List CheckpointRow → ℕ
checkpoint_tip_sequence [] = 0
checkpoint_tip_sequence (r ∷ _) = r.sequence

module _ (c : Codec) where
  abbrev pub row_of : CheckpointEnvelope → CheckpointRow
  row_of e = record {
    checkpoint_id = e.checkpoint_id;
    schema_version = e.schema_version;
    sequence = e.sequence;
    parent_hash = e.parent_hash;
    payload_hash = e.payload_hash;
    envelope_json = c.dump e;
  }

  -- The row's JSON is a valid checkpoint whose chain hash is the parent that is looked for.
  unfoldable pub is_parent : Option String → String → Bool
  is_parent parent value = elim (from_untrusted_json c value) [
    | ok e ↦ same_text parent (some (chain_hash c e))
    | err _ ↦ false
  ]

  -- The parent's check: some retained row for a later checkpoint, no parent for the first.
  unfoldable pub parent_is_known : Option String → List CheckpointRow → Bool
  unfolding is_parent
  parent_is_known parent [] = not (is_some parent)
  parent_is_known parent (r ∷ rows) = any (is_parent parent) (list_checkpoint_json (r ∷ rows))

  -- A checkpoint ID that is taken violates the primary key.
  unfoldable pub append_checkpoint :
      CheckpointEnvelope → ℕ → List CheckpointRow → Result (List CheckpointRow)
  append_checkpoint e expected_sequence rows = do
    verify c e
    refuse_if
        (not (eqb (checkpoint_tip_sequence rows) expected_sequence)
          || not (eqb e.sequence (expected_sequence + 1)))
        concurrency_conflict_error
    refuse_if (not (parent_is_known e.parent_hash rows)) concurrency_conflict_error
    refuse_if (any (λ (r : CheckpointRow). r.checkpoint_id == e.checkpoint_id) rows)
        concurrency_conflict_error
    ok (row_of e ∷ rows)

-- OFFSET n LIMIT 1.
abbrev pub sequence_at : ℕ → List CheckpointRow → Option ℕ
sequence_at n [] = none
sequence_at zero (r ∷ rows) = some r.sequence
sequence_at (suc n) (r ∷ rows) = sequence_at n rows

unfoldable pub prune_checkpoints : ℕ → List CheckpointRow → Result (ℕ × List CheckpointRow)
prune_checkpoints retain rows =
    if ltb retain 2 then err value_error else elim (sequence_at (retain - 1) rows) [
      | none ↦ ok (0, rows)
      | some cutoff ↦
          let kept = keep (λ (r : CheckpointRow). not (ltb r.sequence cutoff)) rows in
          ok (length rows - length kept, kept)
    ]
