-- ===== src/Checkpoint/Manager/Recovery.antt =====
-- Which checkpoint `recover_latest` of checkpoints/manager.py returns.
use build_your_own_durable_a.Common.{
  ℕ, ◌+◌, ◌≡◌, refl, true, distinct, ◌⊎◌, inl, inr, Option, none, some, false, List, [], ◌∷◌, ◌++◌,
  arith, Bool-cases,
}
use build_your_own_durable_a.Common.Result.{ok, err, corrupt_checkpoint_error}
use build_your_own_durable_a.Checkpoint.Envelope.{CheckpointEnvelope, Codec}
use build_your_own_durable_a.Checkpoint.Chain.{Parsed, Chain, chain_is_valid, chain_is_valid-Chain}
use build_your_own_durable_a.Checkpoint.Complete.{hashes, Chain-chain_is_valid}
use build_your_own_durable_a.Checkpoint.Rows.{CheckpointRow}
use build_your_own_durable_a.Checkpoint.Manager.{Failures, parse_rows, recover_from, recover_latest}

module _ (c : Codec) where
  -- The row cannot be read, or has no unbroken chain.
  abbrev pub IsBroken : Option CheckpointEnvelope → Parsed → Type 0
  IsBroken none rest = Unit
  IsBroken (some e) rest = ¬ (Chain c e rest)

  -- `e` is the newest row with an unbroken chain.
  pub data Newest (e : CheckpointEnvelope) : Parsed → Type 0 where
    here : {rest : Parsed} → Chain c e rest → Newest e (some e ∷ rest)
    below :
        {x : Option CheckpointEnvelope} {rest : Parsed}
        → IsBroken x rest
        → Newest e rest
        → Newest e (x ∷ rest)

  abbrev pub AllBroken : Parsed → Type 0
  AllBroken [] = Unit
  AllBroken (x ∷ rest) = IsBroken x rest × AllBroken rest

  rejected-IsBroken :
      (e : CheckpointEnvelope) (rest : Parsed)
      → distinct (hashes c rest) ≡ true
      → chain_is_valid c (some e ∷ rest) ≡ false
      → IsBroken (some e) rest
  rejected-IsBroken e rest d v = λ k. cc (v, Chain-chain_is_valid c e rest d k)

  recover_from_cases :
      (n : ℕ) (failures : Failures) (parsed : Parsed)
      → distinct (hashes c parsed) ≡ true
      → ((e : CheckpointEnvelope) × ((recover_from c n failures parsed).0 ≡ ok e) × Newest e parsed)
        ⊎ (((recover_from c n failures parsed).0 ≡ err corrupt_checkpoint_error) × AllBroken parsed)
  unfolding recover_from
  recover_from_cases n failures [] d = inr (refl, tt)
  recover_from_cases n failures (none ∷ rest) d =
      elim (recover_from_cases (n + 1) (failures ++ (n, none) ∷ []) rest d) [
        | inl (e, p, q) ↦ inl (e, p, below tt q)
        | inr (p, q) ↦ inr (p, (tt, q))
      ]
  recover_from_cases n failures (some e ∷ rest) d =
      let later : distinct (hashes c rest) ≡ true = ground arith in
      elim (Bool-cases (chain_is_valid c (some e ∷ rest))) [
        | inl v ↦ inl (e, ground arith, here (chain_is_valid-Chain c e rest v))
        | inr v ↦
            let broken = rejected-IsBroken e rest later v in
            elim (recover_from_cases (n + 1) (failures ++ (n, some e.checkpoint_id) ∷ []) rest
              later) [
                | inl (o, p, q) ↦ inl (o, ground (arith, p), below broken q)
                | inr (p, q) ↦ inr (ground (arith, p), (broken, q))
              ]
      ]

  -- Where no two readable rows have one chain hash, `recover_latest` returns the newest row that has
  -- an unbroken chain, or fails, and then no row has one.
  pub recover_latest_cases :
      (rows : List CheckpointRow)
      → distinct (hashes c (parse_rows c rows)) ≡ true
      → ((e : CheckpointEnvelope) × ((recover_latest c rows).0 ≡ ok e)
          × Newest e (parse_rows c rows))
        ⊎ (((recover_latest c rows).0 ≡ err corrupt_checkpoint_error)
            × AllBroken (parse_rows c rows))
  unfolding recover_latest
  recover_latest_cases [] d = inr (refl, tt)
  recover_latest_cases (r ∷ rows) d = recover_from_cases 0 [] (parse_rows c (r ∷ rows)) d
