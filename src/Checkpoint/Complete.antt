-- ===== src/Checkpoint/Complete.antt =====
-- `CheckpointManager._chain_is_valid` of checkpoints/manager.py accepts each unbroken chain, where no
-- two checkpoints that can be read have one chain hash.
use build_your_own_durable_a.Common.{
  ℕ, String, true, false, none, some, List, [], ◌∷◌, ◌==◌, ◌≡◌, refl, ◌<◌, elem, distinct, arith,
  eq_iff,
}
use build_your_own_durable_a.Checkpoint.Envelope.{CheckpointEnvelope, Codec, chain_hash}
use build_your_own_durable_a.Checkpoint.Chain.{
  Parsed, Ends, here, there, Chain, oldest, first, link, is_verified, anchored, linked,
  chain_is_valid,
}

module _ (c : Codec) where
  -- The chain hashes of the rows that can be read.
  abbrev pub hashes : Parsed → List String
  hashes [] = []
  hashes (none ∷ rest) = hashes rest
  hashes (some e ∷ rest) = chain_hash c e ∷ hashes rest

  Ends-elem :
      {older : CheckpointEnvelope} {kept rest : Parsed}
      → Ends c older kept rest
      → elem (chain_hash c older) (hashes rest) ≡ true
  Ends-elem {older = older} here = ground (arith, eq_iff (chain_hash c older) (chain_hash c older))
  Ends-elem (there {x = none} e) = Ends-elem e
  Ends-elem (there {x = some y} e) = ground (arith, Ends-elem e)

  distinct-Ends :
      {older : CheckpointEnvelope} {kept rest : Parsed}
      → Ends c older kept rest
      → distinct (hashes rest) ≡ true
      → distinct (hashes kept) ≡ true
  distinct-Ends here d = ground arith
  distinct-Ends (there {x = none} e) d = distinct-Ends e d
  distinct-Ends (there {x = some y} e) d = distinct-Ends e (ground arith)

  linked-here :
      (older : CheckpointEnvelope) (kept rest : Parsed) (p : String) (n : ℕ)
      → Ends c older kept rest
      → distinct (hashes rest) ≡ true
      → p ≡ chain_hash c older
      → older.sequence < n
      → is_verified c older ≡ true
      → anchored c older kept (linked c kept) ≡ true
      → linked c rest p n ≡ true
  unfolding linked
  linked-here older kept rest p n here d q l v a = ground (arith, eq_iff p (chain_hash c older))
  linked-here older kept rest p n (there {x = none} {rest = later} e) d q l v a =
      linked-here older kept later p n e d q l v a
  linked-here older kept rest p n (there {x = some y} {rest = later} e) d q l v a =
      let member = Ends-elem e in
      let other : (p == chain_hash c y) ≡ false =
        ground (
          arith,
          member,
          eq_iff p (chain_hash c y),
          eq_iff (chain_hash c y) (chain_hash c older),
        ) in
      let rest_ok = linked-here older kept later p n e (ground arith) q l v a in
      ground (arith, other, rest_ok)

  Chain-verified :
      {e : CheckpointEnvelope} {rest : Parsed} → Chain c e rest → is_verified c e ≡ true
  Chain-verified (oldest v) = v
  Chain-verified (first v r q) = v
  Chain-verified (link older kept v p l e k) = v

  Chain-anchored :
      (e : CheckpointEnvelope) (rest : Parsed)
      → Chain c e rest
      → distinct (hashes rest) ≡ true
      → anchored c e rest (linked c rest) ≡ true
  Chain-anchored e rest (oldest v) d = refl
  Chain-anchored e [] (first v root one) d = refl
  Chain-anchored e (x ∷ rest) (first v root one) d = ground (arith, root, one)
  Chain-anchored e [] (link older kept v p l ends k) d = refl
  Chain-anchored e (x ∷ rest) (link older kept v p l ends k) d =
      let deep = Chain-anchored older kept k (distinct-Ends ends d) in
      let found =
        linked-here older kept (x ∷ rest) (chain_hash c older) e.sequence ends d refl l
          (Chain-verified k) deep in
      ground (arith, p, found)

  pub Chain-chain_is_valid :
      (e : CheckpointEnvelope) (rest : Parsed)
      → distinct (hashes rest) ≡ true
      → Chain c e rest
      → chain_is_valid c (some e ∷ rest) ≡ true
  unfolding chain_is_valid
  Chain-chain_is_valid e rest d k = ground (arith, Chain-verified k, Chain-anchored e rest k d)
