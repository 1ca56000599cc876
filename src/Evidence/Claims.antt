-- ===== src/Evidence/Claims.antt =====
-- persistence/store.py: `add_claim`, and the links of claims to evidence.
use build_your_own_durable_a.Common.{
  String, ◌≡◌, Bool, true, not, ◌&&◌, none, some, List, [], ◌∷◌, ◌==◌, ◌++◌, eq_iff, any, All,
  distinct, is_some, arith, inl, inr, Option-cases,
}
use build_your_own_durable_a.Common.Result.{
  Result, ok, refuse_if, ◌>>◌, idempotency_conflict_error, plan_validation_error, database_error,
}
use build_your_own_durable_a.Common.Table.{Table, insert}
use build_your_own_durable_a.Domain.Enums.{ClaimKind}
use build_your_own_durable_a.Domain.Models.{RunRecord}
use build_your_own_durable_a.Evidence.{EvidenceRecord, Claim}

pub record ClaimRow : Type 0 where
  pub claim_id : String
  pub run_id : String
  pub text : String
  pub kind : ClaimKind

pub record ClaimLink : Type 0 where
  pub claim_id : String
  pub evidence_id : String

-- The tables that `add_claim` reads and writes, with the runs that their foreign keys name.
pub record Ledger : Type 0 where
  pub runs : Table RunRecord
  pub evidence : Table EvidenceRecord
  pub claims : Table ClaimRow
  pub links : List ClaimLink

-- The rows that `evidence_id.in_(..)` selects.
abbrev pub evidence_rows : Table EvidenceRecord → List String → List EvidenceRecord
evidence_rows t [] = []
evidence_rows t (k ∷ ks) =
    let rest = evidence_rows t ks in elim (t k) [ none ↦ rest | some r ↦ r ∷ rest ]

abbrev pub links_of : String → List String → List ClaimLink
links_of claim_id [] = []
links_of claim_id (k ∷ ks) = record { claim_id = claim_id; evidence_id = k } ∷ links_of claim_id ks

abbrev pub row_of_claim : Claim → ClaimRow
row_of_claim c = record { claim_id = c.claim_id; run_id = c.run_id; text = c.text; kind = c.kind }

abbrev pub with_claim : Claim → Ledger → Ledger
with_claim c l = record l {
  claims = insert c.claim_id (row_of_claim c) l.claims;
  links = links_of c.claim_id c.evidence_ids ++ l.links;
}

-- A run that is not there and a link that is there twice break a constraint of the tables.
unfoldable pub add_claim : Claim → Ledger → Result Ledger
add_claim c l = do
  refuse_if (is_some (l.claims c.claim_id)) idempotency_conflict_error
  refuse_if (any (λ k. not (is_some (l.evidence k))) c.evidence_ids) plan_validation_error
  refuse_if
      (any (λ (r : EvidenceRecord). not (r.run_id == c.run_id))
        (evidence_rows l.evidence c.evidence_ids))
      plan_validation_error
  refuse_if (not (is_some (l.runs c.run_id))) database_error
  refuse_if (not (distinct c.evidence_ids)) database_error
  ok (with_claim c l)

-- A link joins a claim to evidence of the same run.
pub record Linked (l : Ledger) (k : ClaimLink) : Type 0 where
  pub claim : ClaimRow
  pub evidence : EvidenceRecord
  pub claim_there : l.claims k.claim_id ≡ some claim
  pub evidence_there : l.evidence k.evidence_id ≡ some evidence
  pub same_run : evidence.run_id ≡ claim.run_id

abbrev is_joined : Claim → Ledger → List String → Bool
is_joined c l ks =
    not (any (λ k. not (is_some (l.evidence k))) ks)
    && not (any (λ (r : EvidenceRecord). not (r.run_id == c.run_id)) (evidence_rows l.evidence ks))

old-Linked :
    (c : Claim) (l : Ledger) (ks : List ClaimLink)
    → l.claims c.claim_id ≡ none
    → All (Linked l) ks
    → All (Linked (with_claim c l)) ks
unfolding insert
old-Linked c l [] e h = tt
old-Linked c l (k ∷ ks) e h =
    let first = h.0 in
    let there = first.claim_there in
    (
      record {
        claim = first.claim;
        evidence = first.evidence;
        claim_there = ground (arith, e, there, eq_iff k.claim_id c.claim_id);
        evidence_there = first.evidence_there;
        same_run = first.same_run;
      },
      old-Linked c l ks e h.1,
    )

new-Linked :
    (c : Claim) (l : Ledger) (ks : List String) (rest : List ClaimLink)
    → is_joined c l ks ≡ true
    → All (Linked (with_claim c l)) rest
    → All (Linked (with_claim c l)) (links_of c.claim_id ks ++ rest)
unfolding insert
new-Linked c l [] rest j h = h
new-Linked c l (k ∷ ks) rest j h = elim (Option-cases (l.evidence k)) [
  | inl e ↦ absurd (ground (arith, e))
  | inr (r, e) ↦ (
    record {
      claim = row_of_claim c;
      evidence = r;
      claim_there = ground (arith, eq_iff c.claim_id c.claim_id);
      evidence_there = e;
      same_run = ground (arith, e, eq_iff r.run_id c.run_id);
    },
    new-Linked c l ks rest (ground (arith, e)) h,
  )
]

add_claim-eq-ok :
    (c : Claim) (l l' : Ledger)
    → add_claim c l ≡ ok l'
    → (l.claims c.claim_id ≡ none) × (is_joined c l c.evidence_ids ≡ true) × (l' ≡ with_claim c l)
unfolding add_claim
add_claim-eq-ok c l l' h = elim (Option-cases (l.claims c.claim_id)) [
  | inr (r, e) ↦ absurd (ground (arith, e))
  | inl e ↦ (e, ground (arith, e), ground (arith, e))
]

-- Adding a claim keeps every link of the store between a claim and evidence that are both stored and
-- belong to the same run.
pub add_claim-Linked :
    (c : Claim) (l l' : Ledger)
    → All (Linked l) l.links
    → add_claim c l ≡ ok l'
    → All (Linked l') l'.links
add_claim-Linked c l l' inv h =
    let (free, joined, same) = add_claim-eq-ok c l l' h in
    rw same (new-Linked c l c.evidence_ids l.links joined (old-Linked c l l.links free inv))
