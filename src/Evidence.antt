-- ===== src/Evidence.antt =====
-- domain/evidence.py and evidence/ledger.py: evidence, claims, and the check of a claim's links. The
-- hash, the excerpt, the reliability and the identifiers' patterns are left out.
pub mod Links
pub mod Claims
use build_your_own_durable_a.Common.{
  String, Bool, true, false, not, ◌&&◌, none, some, List, [], ◌∷◌, ◌==◌, any, distinct, length,
  is_some, eqb,
}
use build_your_own_durable_a.Common.Dict.{Dict, lookup}
use build_your_own_durable_a.Common.Result.{
  Result, ok, domain_validation_error, validation_error, ◌>>◌, refuse_if,
}
use build_your_own_durable_a.Domain.Enums.{ClaimKind, VerificationStatus}

pub record EvidenceRecord : Type 0 where
  pub evidence_id : String
  pub run_id : String
  pub verification_status : VerificationStatus

pub record Claim : Type 0 where
  pub claim_id : String
  pub run_id : String
  pub text : String
  pub kind : ClaimKind
  pub evidence_ids : List String

-- `min_length=1`, then `evidence_required_for_supported_kinds`.
unfoldable pub validate_claim : Claim → Result Claim
validate_claim c = do
  refuse_if (eqb (length c.evidence_ids) 0) validation_error
  refuse_if (not (distinct c.evidence_ids)) validation_error
  ok c

abbrev pub is_invalid : VerificationStatus → Bool
is_invalid VerificationStatus.invalid = true
is_invalid _ = false

abbrev pub is_verified_status : VerificationStatus → Bool
is_verified_status VerificationStatus.verified = true
is_verified_status _ = false

abbrev pub needs_verified : ClaimKind → Bool
needs_verified ClaimKind.verified_fact = true
needs_verified ClaimKind.test_supported = true
needs_verified _ = false

-- `[evidence[item] for item in claim.evidence_ids]`, after no ID was missing.
abbrev pub records_of : Dict EvidenceRecord → List String → List EvidenceRecord
records_of evidence [] = []
records_of evidence (k ∷ ks) =
    let rest = records_of evidence ks in
    elim (lookup k evidence) [ none ↦ rest | some r ↦ r ∷ rest ]

unfoldable pub verify_claim : Claim → Dict EvidenceRecord → Result (Unit {0})
verify_claim c evidence =
    let records = records_of evidence c.evidence_ids in
    (do
      refuse_if (any (λ k. not (is_some (lookup k evidence))) c.evidence_ids)
          domain_validation_error
      refuse_if (any (λ (r : EvidenceRecord). not (r.run_id == c.run_id)) records)
          domain_validation_error
      refuse_if (any (λ (r : EvidenceRecord). is_invalid r.verification_status) records)
          domain_validation_error
      refuse_if
          (needs_verified c.kind
            && any (λ (r : EvidenceRecord). not (is_verified_status r.verification_status)) records)
          domain_validation_error)

-- The loop of `verify_run` over the claims.
unfoldable pub verify_claims : List Claim → Dict EvidenceRecord → Result (Unit {0})
unfolding verify_claim
verify_claims [] evidence = ok tt
verify_claims (c ∷ cs) evidence = do verify_claim c evidence; verify_claims cs evidence
