-- ===== src/Checkpoint/Chain.antt =====
-- `CheckpointManager._chain_is_valid` of checkpoints/manager.py. The rows are parsed and newest
-- first; `none` is a row whose JSON or schema is invalid.
use build_your_own_durable_a.Common.{
  ℕ, String, Bool, true, false, ◌&&◌, Option, none, some, List, [], ◌∷◌, ◌==◌, eqb, ltb, ◌≡◌, ◌<◌,
  arith, eq_iff, Bool-cases, Option-cases, inl, inr, ap, ◌∙◌,
}
use build_your_own_durable_a.Common.Result.{is_ok}
use build_your_own_durable_a.Checkpoint.Envelope.{CheckpointEnvelope, Codec, verify, chain_hash}

abbrev pub Parsed : Type 0
Parsed = List (Option CheckpointEnvelope)

module _ (c : Codec) where
  unfoldable pub is_verified : CheckpointEnvelope → Bool
  is_verified e = is_ok (verify c e)

  -- What follows `candidate.verify()`: the oldest row is the trust anchor, a row with no parent is
  -- the first of all, and any other is linked by the search that is handed in.
  abbrev pub anchored : CheckpointEnvelope → Parsed → (String → ℕ → Bool) → Bool
  anchored e [] linked = true
  anchored e (_ ∷ _) linked = elim e.parent_hash [
    | none ↦ eqb e.sequence 1
    | some p ↦ linked p e.sequence
  ]

  -- The loop over `older_index`: the first older row with the parent's hash decides.
  unfoldable pub linked : Parsed → String → ℕ → Bool
  unfolding is_verified
  linked [] parent sequence = false
  linked (none ∷ rest) parent sequence = linked rest parent sequence
  linked (some older ∷ rest) parent sequence =
      elim (is_verified older && ltb older.sequence sequence && parent == chain_hash c older) [
        | true ↦ anchored older rest (linked rest)
        | false ↦ linked rest parent sequence
      ]

  unfoldable pub chain_is_valid : Parsed → Bool
  unfolding linked is_verified
  chain_is_valid [] = false
  chain_is_valid (none ∷ rest) = false
  chain_is_valid (some e ∷ rest) = elim (is_verified e) [
    | true ↦ anchored e rest (linked rest)
    | false ↦ false
  ]

  pub data Ends (older : CheckpointEnvelope) (kept : Parsed) : Parsed → Type 0 where
    here : Ends older kept (some older ∷ kept)
    there :
        {x : Option CheckpointEnvelope} {rest : Parsed}
        → Ends older kept rest
        → Ends older kept (x ∷ rest)

  -- What a valid chain is: each row is verified, names the hash of an older row that is kept and has
  -- a smaller sequence, down to the first checkpoint or to the oldest row.
  pub data Chain : CheckpointEnvelope → Parsed → Type 0 where
    oldest : {e : CheckpointEnvelope} → is_verified e ≡ true → Chain e []
    first :
        {e : CheckpointEnvelope} {rest : Parsed}
        → is_verified e ≡ true
        → e.parent_hash ≡ none
        → e.sequence ≡ 1
        → Chain e rest
    link :
        {e : CheckpointEnvelope} {rest : Parsed} (older : CheckpointEnvelope) (kept : Parsed)
        → is_verified e ≡ true
        → e.parent_hash ≡ some (chain_hash c older)
        → older.sequence < e.sequence
        → Ends older kept rest
        → Chain older kept
        → Chain e rest

  record Found (rest : Parsed) (parent : String) (sequence : ℕ) : Type 0 where
    older : CheckpointEnvelope
    kept : Parsed
    hash : parent ≡ chain_hash c older
    lower : older.sequence < sequence
    ends : Ends older kept rest
    chain : Chain older kept

  anchored-Chain :
      (e : CheckpointEnvelope) (rest : Parsed)
      → is_verified e ≡ true
      → ((p : String) → linked rest p e.sequence ≡ true → Found rest p e.sequence)
      → anchored e rest (linked rest) ≡ true
      → Chain e rest
  anchored-Chain e [] v find h = oldest v
  anchored-Chain e (x ∷ rest) v find h = elim (Option-cases e.parent_hash) [
    | inl root ↦ first v root (ground arith)
    | inr (p, q) ↦
        let f : Found (x ∷ rest) p e.sequence = find p (ground arith) in
        link f.older f.kept v (q ∙ ap some f.hash) f.lower f.ends f.chain
  ]

  Found-later :
      (x : Option CheckpointEnvelope) {rest : Parsed} {p : String} {n : ℕ}
      → Found rest p n
      → Found (x ∷ rest) p n
  Found-later x f = record {
    older = f.older;
    kept = f.kept;
    hash = f.hash;
    lower = f.lower;
    ends = there f.ends;
    chain = f.chain;
  }

  linked-Found : (rest : Parsed) (p : String) (n : ℕ) → linked rest p n ≡ true → Found rest p n
  unfolding linked
  linked-Found [] p n h = absurd (cc h)
  linked-Found (none ∷ rest) p n h = Found-later none (linked-Found rest p n h)
  linked-Found (some o ∷ rest) p n h =
      elim (Bool-cases (is_verified o && ltb o.sequence n && p == chain_hash c o)) [
        | inl here_it_is ↦ record {
          older = o;
          kept = rest;
          hash = ground (arith, eq_iff p (chain_hash c o));
          lower = ground arith;
          ends = here;
          chain =
              anchored-Chain o rest (ground arith) (λ q e. linked-Found rest q o.sequence e)
                (ground arith);
        }
        | inr further ↦ Found-later (some o) (linked-Found rest p n (ground arith))
      ]

  -- A checkpoint that the code takes for valid has an unbroken chain.
  pub chain_is_valid-Chain :
      (e : CheckpointEnvelope) (rest : Parsed)
      → chain_is_valid (some e ∷ rest) ≡ true
      → Chain e rest
  unfolding chain_is_valid
  chain_is_valid-Chain e rest h =
      anchored-Chain e rest (ground arith) (λ p. linked-Found rest p e.sequence) (ground arith)
