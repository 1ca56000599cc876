-- ===== src/Evidence/Links.antt =====
-- evidence/ledger.py: what `verify_claim` asks of the evidence.
use build_your_own_durable_a.Common.{
  String, ◌≡◌, ◌↔◌, ◌⊎◌, Bool, true, not, ◌&&◌, some, List, [], ◌∷◌, ◌==◌, eq_iff, any, All,
  is_some, arith, inl, inr, Option-cases,
}
use build_your_own_durable_a.Common.Dict.{Dict, lookup}
use build_your_own_durable_a.Common.Result.{ok}
use build_your_own_durable_a.Domain.Enums.{ClaimKind, VerificationStatus}
use build_your_own_durable_a.Evidence.{
  EvidenceRecord, Claim, verify_claim, records_of, is_invalid, is_verified_status, needs_verified,
}

-- What one link of a claim asks of the evidence.
pub record Supports (c : Claim) (evidence : Dict EvidenceRecord) (k : String) : Type 0 where
  pub found : EvidenceRecord
  pub present : lookup k evidence ≡ some found
  pub same_run : found.run_id ≡ c.run_id
  pub usable : ¬ (found.verification_status ≡ VerificationStatus.invalid)
  pub verified :
      (c.kind ≡ ClaimKind.verified_fact) ⊎ (c.kind ≡ ClaimKind.test_supported)
      → found.verification_status ≡ VerificationStatus.verified

needs_verified-supported :
    (k : ClaimKind)
    → (needs_verified k ≡ true) ↔ ((k ≡ ClaimKind.verified_fact) ⊎ (k ≡ ClaimKind.test_supported))
needs_verified-supported k = ground arith

-- The four tests on a list of links.
abbrev passes : Claim → Dict EvidenceRecord → List String → Bool
passes c evidence ks =
    let records = records_of evidence ks in
    not (any (λ k. not (is_some (lookup k evidence))) ks)
    && not (any (λ (r : EvidenceRecord). not (r.run_id == c.run_id)) records)
    && not (any (λ (r : EvidenceRecord). is_invalid r.verification_status) records)
    && not (
        needs_verified c.kind
        && any (λ (r : EvidenceRecord). not (is_verified_status r.verification_status)) records)

verify_claim-passes :
    (c : Claim) (evidence : Dict EvidenceRecord)
    → (verify_claim c evidence ≡ ok tt) ↔ (passes c evidence c.evidence_ids ≡ true)
unfolding verify_claim
verify_claim-passes c evidence = ground arith

passes-Supports :
    (c : Claim) (evidence : Dict EvidenceRecord) (ks : List String)
    → passes c evidence ks ≡ true
    → All (Supports c evidence) ks
passes-Supports c evidence [] h = tt
passes-Supports c evidence (k ∷ ks) h = elim (Option-cases (lookup k evidence)) [
  | inl e ↦ absurd (ground (arith, e))
  | inr (r, e) ↦ (
    record {
      found = r;
      present = e;
      same_run = ground (arith, e, eq_iff r.run_id c.run_id);
      usable = λ x. ground (arith, e, x);
      verified = λ n.
          let needed : needs_verified c.kind ≡ true = (needs_verified-supported c.kind).1 n in
          ground (arith, e, needed);
    },
    passes-Supports c evidence ks (ground (arith, e)),
  )
]

Supports-passes :
    (c : Claim) (evidence : Dict EvidenceRecord) (ks : List String)
    → All (Supports c evidence) ks
    → passes c evidence ks ≡ true
Supports-passes c evidence [] h = ground arith
Supports-passes c evidence (k ∷ ks) h =
    let first = h.0 in
    let later = Supports-passes c evidence ks h.1 in
    let present = first.present in
    let same_run = first.same_run in
    let usable = first.usable in
    let verified : needs_verified c.kind ≡ true
        → first.found.verification_status ≡ VerificationStatus.verified =
      λ n. first.verified ((needs_verified-supported c.kind).0 n) in
    ground (arith, present, same_run, usable, verified, later, eq_iff first.found.run_id c.run_id)

-- A claim is accepted exactly if each ID it names has evidence of its run that is not invalid, and
-- that is verified if the claim is a verified fact or test-supported; the type of the evidence plays
-- no part.
pub verify_claim_lem :
    (c : Claim) (evidence : Dict EvidenceRecord)
    → (verify_claim c evidence ≡ ok tt) ↔ All (Supports c evidence) c.evidence_ids
verify_claim_lem c evidence =
    let (from, to) = verify_claim-passes c evidence in
    (
      λ h. passes-Supports c evidence c.evidence_ids (from h),
      λ h. to (Supports-passes c evidence c.evidence_ids h),
    )
