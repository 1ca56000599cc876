-- ===== src/Checkpoint/Manager/Retention.antt =====
-- What pruning does to recovery: `prune_checkpoints` of persistence/store.py keeps rows by their
-- sequence only, and `_chain_is_valid` of checkpoints/manager.py needs the parents.
use build_your_own_durable_a.Common.{
  distinct, ◌<◌, ◌≡◌, ◌≢◌, refl, inl, inr, Option, none, some, true, List, [], ◌∷◌, arith, eq_refl,
}
use build_your_own_durable_a.Common.Result.{ok, err, corrupt_checkpoint_error}
use build_your_own_durable_a.Checkpoint.Envelope.{CheckpointEnvelope, Codec, chain_hash}
use build_your_own_durable_a.Checkpoint.Chain.{
  Parsed, Chain, oldest, first, link, Ends, here, there, is_verified, chain_is_valid,
}
use build_your_own_durable_a.Checkpoint.Rows.{CheckpointRow, prune_checkpoints}
use build_your_own_durable_a.Checkpoint.Manager.{parse_row, parse_rows, recover_latest}
use build_your_own_durable_a.Checkpoint.Complete.{hashes}
use build_your_own_durable_a.Checkpoint.Manager.Recovery.{Newest, below, recover_latest_cases}

module _ (c : Codec) where
  -- The oldest row cannot be read, and no other is the first checkpoint of its run.
  pub data Stranded : Parsed → Type 0 where
    unreadable : Stranded (none ∷ [])
    child :
        {x : Option CheckpointEnvelope} {rest : Parsed}
        → ((e : CheckpointEnvelope) → x ≡ some e → e.parent_hash ≢ none)
        → Stranded rest
        → Stranded (x ∷ rest)

  Ends-Stranded :
      {older : CheckpointEnvelope} {kept rest : Parsed}
      → Ends c older kept rest
      → Stranded rest
      → Stranded kept × (older.parent_hash ≢ none)
  Ends-Stranded here (child p s) = (s, p _ refl)
  Ends-Stranded (there e) unreadable = elim e [ ]
  Ends-Stranded (there e) (child p s) = Ends-Stranded e s

  Chain-Stranded :
      {e : CheckpointEnvelope} {rest : Parsed}
      → Chain c e rest
      → Stranded rest
      → e.parent_hash ≢ none
      → ⊥
  Chain-Stranded (oldest v) s p = elim s [ ]
  Chain-Stranded (first v root one) s p = p root
  Chain-Stranded (link older kept v h lt e ch) s p =
      let (s', p') = Ends-Stranded e s in Chain-Stranded ch s' p'

  Newest-Stranded :
      {e : CheckpointEnvelope} {parsed : Parsed} → Newest c e parsed → Stranded parsed → ⊥
  Newest-Stranded (Newest.here ch) (child p s) = Chain-Stranded ch s (p _ refl)
  Newest-Stranded (below f n) unreadable = elim n [ ]
  Newest-Stranded (below f n) (child p s) = Newest-Stranded n s

  -- Once the oldest retained row is unreadable and the first checkpoint is no longer retained,
  -- recovery fails, however many retained checkpoints are intact, where no two rows that can be read
  -- have one chain hash.
  pub Stranded-fails :
      (rows : List CheckpointRow)
      → distinct (hashes c (parse_rows c rows)) ≡ true
      → Stranded (parse_rows c rows)
      → (recover_latest c rows).0 ≡ err corrupt_checkpoint_error
  Stranded-fails rows d s = elim (recover_latest_cases c rows d) [
    | inl (e, p, n) ↦ absurd (Newest-Stranded n s)
    | inr (p, r) ↦ p
  ]

  -- A checkpoint that was written over an unreadable row, with the row below that as its parent, is
  -- recovered; pruning to two rows then deletes the parent, and recovery fails.
  pub prune_loses_recovery :
      (new old : CheckpointEnvelope) (r unread s : CheckpointRow)
      → parse_row c r.envelope_json ≡ some new
      → parse_row c unread.envelope_json ≡ none
      → parse_row c s.envelope_json ≡ some old
      → is_verified c new ≡ true
      → is_verified c old ≡ true
      → new.parent_hash ≡ some (chain_hash c old)
      → old.sequence < new.sequence
      → unread.sequence < r.sequence
      → s.sequence < unread.sequence
      → ((recover_latest c (r ∷ unread ∷ s ∷ [])).0 ≡ ok new)
        × (prune_checkpoints 2 (r ∷ unread ∷ s ∷ []) ≡ ok (1, r ∷ unread ∷ []))
        × ((recover_latest c (r ∷ unread ∷ [])).0 ≡ err corrupt_checkpoint_error)
  unfolding recover_latest chain_is_valid prune_checkpoints
  prune_loses_recovery new old r unread s pr pu ps vn vo h lt lt1 lt2 =
      (ground (arith, eq_refl (chain_hash c old)), ground arith, ground arith)
