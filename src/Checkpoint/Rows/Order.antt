-- ===== src/Checkpoint/Rows/Order.antt =====
-- The rows of a run stay in strictly descending order of sequence.
use build_your_own_durable_a.Common.{
  String, Option, Any, any, eq_iff, Bool-cases, ℕ, zero, suc, ◌+◌, ◌-◌, ◌≤◌, ◌<◌, ◌≡◌, refl, ap,
  true, not, none, some, List, [], ◌∷◌, All, arith, keep, take, length, ltb, Option-cases,
  if◌then◌else◌, inl, inr,
}
use build_your_own_durable_a.Common.Result.{ok, err, value_error, Result-cases}
use build_your_own_durable_a.Checkpoint.Envelope.{
  CheckpointEnvelope, Codec, verify, chain_hash, from_untrusted_json,
}
use build_your_own_durable_a.Checkpoint.Rows.{
  CheckpointRow, row_of, append_checkpoint, prune_checkpoints, sequence_at, checkpoint_tip_sequence,
  parent_is_known, is_parent, list_checkpoint_json,
}

abbrev pub IsDescending : List CheckpointRow → Type 0
IsDescending [] = Unit
IsDescending (r ∷ rows) =
    All (λ (s : CheckpointRow). s.sequence < r.sequence) rows × IsDescending rows

All-lt_trans :
    (n m : ℕ) (rows : List CheckpointRow)
    → n ≤ m
    → All (λ (s : CheckpointRow). s.sequence < n) rows
    → All (λ (s : CheckpointRow). s.sequence < m) rows
All-lt_trans n m [] h a = tt
All-lt_trans n m (r ∷ rows) h a = (omega arith, All-lt_trans n m rows h a.1)

below_tip :
    (rows : List CheckpointRow)
    → IsDescending rows
    → All (λ (s : CheckpointRow). s.sequence < checkpoint_tip_sequence rows + 1) rows
below_tip [] d = tt
below_tip (r ∷ rows) d = (omega arith, All-lt_trans _ _ rows (omega arith) d.0)

-- The row holds a checkpoint that can be read and verified, and whose chain hash is `parent`.
pub record Holds (c : Codec) (parent : String) (r : CheckpointRow) : Type 0 where
  pub envelope : CheckpointEnvelope
  pub readable : from_untrusted_json c r.envelope_json ≡ ok envelope
  pub hash : parent ≡ chain_hash c envelope

-- What a parent is: none for the first row, and the chain hash of a stored checkpoint for any other.
abbrev pub ParentOf : Codec → Option String → List CheckpointRow → Type 0
ParentOf c parent [] = parent ≡ none
ParentOf c parent (r ∷ rows) = (p : String) × (parent ≡ some p) × Any (Holds c p) (r ∷ rows)

is_parent-Holds :
    (c : Codec) (parent : Option String) (r : CheckpointRow)
    → is_parent c parent r.envelope_json ≡ true
    → (p : String) × (parent ≡ some p) × Holds c p r
unfolding is_parent
is_parent-Holds c none r h = absurd (ground arith)
is_parent-Holds c (some p) r h = elim (Result-cases (from_untrusted_json c r.envelope_json)) [
  | inl (x, e) ↦ absurd (ground (arith, e))
  | inr (found, e) ↦ (
    p,
    refl,
    record {
      envelope = found;
      readable = e;
      hash = ground (arith, e, eq_iff p (chain_hash c found));
    },
  )
]

any_parent-Holds :
    (c : Codec) (parent : Option String) (rows : List CheckpointRow)
    → any (is_parent c parent) (list_checkpoint_json rows) ≡ true
    → (p : String) × (parent ≡ some p) × Any (Holds c p) rows
any_parent-Holds c parent [] h = absurd (ground arith)
any_parent-Holds c parent (r ∷ rows) h = elim (Bool-cases (is_parent c parent r.envelope_json)) [
  | inl hit ↦ let (p, e, k) = is_parent-Holds c parent r hit in (p, e, inl k)
  | inr miss ↦
      let (p, e, k) = any_parent-Holds c parent rows (ground (arith, miss)) in (p, e, inr k)
]

parent_is_known-ParentOf :
    (c : Codec) (parent : Option String) (rows : List CheckpointRow)
    → parent_is_known c parent rows ≡ true
    → ParentOf c parent rows
unfolding parent_is_known
parent_is_known-ParentOf c none [] h = refl
parent_is_known-ParentOf c (some p) [] h = absurd (ground arith)
parent_is_known-ParentOf c parent (r ∷ rows) h = any_parent-Holds c parent (r ∷ rows) h

-- A successful append puts the checkpoint, which verifies, on top with the next sequence; it names
-- no parent if it is the first, and else the chain hash of a stored checkpoint that can be read and
-- verified; and the rows stay in order.
pub append_checkpoint_lem :
    (c : Codec) (e : CheckpointEnvelope) (expected : ℕ) (rows rows' : List CheckpointRow)
    → IsDescending rows
    → append_checkpoint c e expected rows ≡ ok rows'
    → (rows' ≡ row_of c e ∷ rows)
      × (e.sequence ≡ checkpoint_tip_sequence rows + 1)
      × (verify c e ≡ ok tt)
      × ParentOf c e.parent_hash rows
      × IsDescending rows'
unfolding append_checkpoint
append_checkpoint_lem c e expected rows rows' d h =
    let pushed : rows' ≡ row_of c e ∷ rows = ground arith in
    let next : e.sequence ≡ checkpoint_tip_sequence rows + 1 = ground arith in
    let known = parent_is_known-ParentOf c e.parent_hash rows (ground arith) in
    (pushed, next, ground arith, known, rw pushed (rw next (below_tip rows d), d))

keep_none :
    (cut : ℕ) (rows : List CheckpointRow)
    → All (λ (s : CheckpointRow). s.sequence < cut) rows
    → keep (λ (r : CheckpointRow). not (ltb r.sequence cut)) rows ≡ []
keep_none cut [] a = refl
keep_none cut (r ∷ rows) a = ground (arith, keep_none cut rows)

cut_below :
    (n m : ℕ) (rows : List CheckpointRow)
    → All (λ (s : CheckpointRow). s.sequence < m) rows
    → (cut : ℕ) → sequence_at n rows ≡ some cut
    → cut < m
cut_below n m [] a cut e = absurd (cc e)
cut_below zero m (r ∷ rows) a cut e = ground arith
cut_below (suc n) m (r ∷ rows) a cut e = cut_below n m rows a.1 cut e

keep-take :
    (n : ℕ) (rows : List CheckpointRow)
    → IsDescending rows
    → (cut : ℕ) → sequence_at n rows ≡ some cut
    → keep (λ (r : CheckpointRow). not (ltb r.sequence cut)) rows ≡ take (suc n) rows
keep-take n [] d cut e = absurd (cc e)
keep-take zero (r ∷ rows) d cut e = ground (arith, keep_none r.sequence rows)
keep-take (suc n) (r ∷ rows) d cut e =
    ground (arith, keep-take n rows d.1 cut e, cut_below n r.sequence rows d.0 cut e)

few_rows :
    (n : ℕ) (rows : List CheckpointRow) → sequence_at n rows ≡ none → take (suc n) rows ≡ rows
few_rows n [] e = refl
few_rows zero (r ∷ rows) e = absurd (cc e)
few_rows (suc n) (r ∷ rows) e = ap (λ t. r ∷ t) (few_rows n rows e)

length-take-sub :
    {A : Type 0} (n : ℕ) (xs : List A) → length xs - length (take n xs) ≡ length xs - n
length-take-sub zero xs = refl
length-take-sub (suc n) [] = omega arith
length-take-sub (suc n) (x ∷ xs) = omega (arith, length-take-sub n xs)

-- Pruning keeps exactly the `retain` newest rows and returns how many it deleted; below two it is
-- refused.
pub prune_checkpoints_lem :
    (retain : ℕ) (rows : List CheckpointRow)
    → IsDescending rows
    → prune_checkpoints retain rows
      ≡ (if ltb retain 2 then err value_error else ok (length rows - retain, take retain rows))
unfolding prune_checkpoints
prune_checkpoints_lem zero rows d = refl
prune_checkpoints_lem (suc n) rows d = elim (Option-cases (sequence_at n rows)) [
  | inl e ↦
      ground (arith, few_rows n rows e, length-take-sub (suc n) rows, ap length (few_rows n rows e))
  | inr (cut, e) ↦ ground (arith, keep-take n rows d cut e, length-take-sub (suc n) rows)
]
