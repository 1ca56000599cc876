-- ===== src/Checkpoint/Manager/Commit.antt =====
-- What a successful `write` of checkpoints/manager.py commits.
use build_your_own_durable_a.Common.{
  ℕ, ◌+◌, String, ◌≡◌, ◌∙◌, Option, some, List, ◌∷◌, take, ltb, arith, inl, inr, Bool-cases,
}
use build_your_own_durable_a.Common.Result.{ok, Result-cases}
use build_your_own_durable_a.Checkpoint.Envelope.{
  CheckpointEnvelope, CheckpointPayload, Codec, create, validate_envelope, verify, chain_hash,
}
use build_your_own_durable_a.Checkpoint.Rows.{
  CheckpointRow, row_of, checkpoint_tip_sequence, append_checkpoint,
}
use build_your_own_durable_a.Checkpoint.Rows.Order.{
  IsDescending, append_checkpoint_lem, prune_checkpoints_lem,
}
use build_your_own_durable_a.Checkpoint.Manager.{
  CheckpointEvent, finish_write, append_created, write_payload, recover_latest,
}

create-parts :
    (c : Codec) (id : String) (n now : ℕ) (payload : CheckpointPayload) (parent : Option String)
    (e : CheckpointEnvelope)
    → create c id n payload parent now ≡ ok e
    → (e.payload ≡ payload) × (e.parent_hash ≡ parent) × (e.sequence ≡ n)
unfolding create validate_envelope
create-parts c id n now payload parent e h = ground arith

module _ (c : Codec) (retention_count : ℕ) (checkpoint_id : String) (created_at : ℕ) where
  -- The rows after `finish_write`, where it returned.
  finish_write-eq-ok :
      (e e' : CheckpointEnvelope) (events : List CheckpointEvent) (rows : List CheckpointRow)
      → IsDescending rows
      → (finish_write c retention_count checkpoint_id created_at e events rows).reply ≡ ok e'
      → (e' ≡ e)
        × ((finish_write c retention_count checkpoint_id created_at e events rows).rows
            ≡ take retention_count rows)
  unfolding finish_write
  finish_write-eq-ok e e' events rows d h =
      let p = prune_checkpoints_lem retention_count rows d in
      elim (Bool-cases (ltb retention_count 2)) [
        | inl few ↦ absurd (ground (arith, p, few))
        | inr enough ↦ (ground (arith, p, enough), ground (arith, p, enough))
      ]

  -- The checkpoint is new, and on top of the newest rows that are retained.
  pub record Committed (payload : CheckpointPayload) (parent : Option String)
      (rows rows' : List CheckpointRow) (e : CheckpointEnvelope) : Type 0 where
    pub kept : rows' ≡ take retention_count (row_of c e ∷ rows)
    pub sequence : e.sequence ≡ checkpoint_tip_sequence rows + 1
    pub verified : verify c e ≡ ok tt
    pub same_payload : e.payload ≡ payload
    pub same_parent : e.parent_hash ≡ parent

  append_created-Committed :
      (payload : CheckpointPayload) (rows : List CheckpointRow) (parent : Option String)
      (events : List CheckpointEvent) (e : CheckpointEnvelope)
      → IsDescending rows
      → (append_created c retention_count checkpoint_id created_at payload rows parent events).reply
        ≡ ok e
      → Committed payload parent rows
          (append_created c retention_count checkpoint_id created_at payload rows parent
            events).rows
          e
  unfolding append_created
  append_created-Committed payload rows parent events e d h =
      let tip = checkpoint_tip_sequence rows in
      elim (Result-cases (create c checkpoint_id (tip + 1) payload parent created_at)) [
        | inl (x, f) ↦ absurd (ground (arith, f))
        | inr (new, f) ↦ elim (Result-cases (append_checkpoint c new tip rows)) [
          | inl (x, g) ↦ absurd (ground (arith, f, g))
          | inr (rows', g) ↦
              let (same_payload, same_parent, _) =
                create-parts c checkpoint_id (tip + 1) created_at payload parent new f in
              let (pushed, next, good, _, sorted) =
                append_checkpoint_lem c new tip rows rows' d g in
              let done : (finish_write c retention_count checkpoint_id created_at new events
                    rows').reply
                  ≡ ok e =
                ground (arith, f, g) in
              let left : (append_created c retention_count checkpoint_id created_at payload rows
                    parent events).rows
                  ≡ (finish_write c retention_count checkpoint_id created_at new events
                      rows').rows =
                ground (arith, f, g) in
              let (same, kept) = finish_write-eq-ok new e events rows' sorted done in
              record {
                kept = left ∙ kept ∙ cc (pushed, same);
                sequence = cc (same, next);
                verified = rw same good;
                same_payload = cc (same, same_payload);
                same_parent = cc (same, same_parent);
              }
        ]
      ]

  -- A write over rows in order that returns has put the new checkpoint, which verifies and carries the
  -- payload, on top with the next sequence, and kept the newest rows; its parent is the chain hash of
  -- the checkpoint that recovery finds.
  pub write_payload_lem :
      (payload : CheckpointPayload) (r : CheckpointRow) (rows : List CheckpointRow)
      (e : CheckpointEnvelope)
      → IsDescending (r ∷ rows)
      → (write_payload c retention_count checkpoint_id created_at payload (r ∷ rows)).reply ≡ ok e
      → (parent : CheckpointEnvelope) × ((recover_latest c (r ∷ rows)).0 ≡ ok parent)
        × Committed payload
            (some (chain_hash c parent))
            (r ∷ rows)
            (write_payload c retention_count checkpoint_id created_at payload (r ∷ rows)).rows
            e
  unfolding write_payload
  write_payload_lem payload r rows e d h = elim (Result-cases (recover_latest c (r ∷ rows)).0) [
    | inl (x, f) ↦ absurd (ground (arith, f))
    | inr (parent, f) ↦ (
      parent,
      f,
      rw (f, write_payload)
          (append_created-Committed payload (r ∷ rows) (some (chain_hash c parent))
            (recover_latest c (r ∷ rows)).1 e d (rw (f, write_payload) at h)),
    )
  ]
