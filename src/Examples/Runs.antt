-- ===== src/Examples/Runs.antt =====
-- Histories of runs, batches and claims.
use build_your_own_durable_a.Common.{String, ◌≡◌, refl, ◌↔◌, ◌⊎◌, List, [], ◌∷◌, All, Any}
use build_your_own_durable_a.Common.Dict.{Dict}
use build_your_own_durable_a.Common.Result.{ok}
use build_your_own_durable_a.Domain.Enums.{RunState, ClaimKind, VerificationStatus}
use build_your_own_durable_a.Domain.StateMachine.{transition_run}
use build_your_own_durable_a.Domain.StateMachine.Histories.{completed_passes_planning}
use build_your_own_durable_a.Evidence.{EvidenceRecord, Claim, verify_claim}
use build_your_own_durable_a.Evidence.Claims.{
  ClaimRow, Ledger, Linked, with_claim, add_claim, add_claim-Linked,
}
use build_your_own_durable_a.Common.Table.{empty, insert}
use build_your_own_durable_a.Evidence.Links.{Supports, verify_claim_lem}
use build_your_own_durable_a.Examples.Data.{run}

abbrev whole_run : List RunState
whole_run = RunState.planning ∷ RunState.running ∷ RunState.completed ∷ []

completed_passes_planning_example :
    Any (λ t. t ≡ RunState.planning) whole_run
    × Any (λ t. (t ≡ RunState.running) ⊎ (t ≡ RunState.pause_requested)) whole_run
unfolding transition_run
completed_passes_planning_example = completed_passes_planning whole_run refl

abbrev claim : Claim
claim = record {
  claim_id = "CLAIM-1";
  run_id = "run";
  text = "the tests pass";
  kind = ClaimKind.test_supported;
  evidence_ids = "EVID-1" ∷ [];
}

abbrev evidence_of : String → EvidenceRecord
evidence_of evidence_id = record {
  evidence_id = evidence_id;
  run_id = "run";
  verification_status = VerificationStatus.verified;
}

abbrev evidence : Dict EvidenceRecord
evidence = ("EVID-1", evidence_of "EVID-1") ∷ []

verify_claim_lem_example :
    (verify_claim claim evidence ≡ ok tt) ↔ All (Supports claim evidence) claim.evidence_ids
verify_claim_lem_example = verify_claim_lem claim evidence

abbrev earlier : ClaimRow
earlier = record {
  claim_id = "CLAIM-0";
  run_id = "run";
  text = "the program starts";
  kind = ClaimKind.verified_fact;
}

abbrev ledger : Ledger
ledger = record {
  runs = insert "run" run empty;
  evidence = insert "EVID-1" (evidence_of "EVID-1") empty;
  claims = insert "CLAIM-0" earlier empty;
  links = record { claim_id = "CLAIM-0"; evidence_id = "EVID-1" } ∷ [];
}

ledger-Linked : All (Linked ledger) ledger.links
unfolding insert
ledger-Linked = (
  record {
    claim = earlier;
    evidence = evidence_of "EVID-1";
    claim_there = refl;
    evidence_there = refl;
    same_run = refl;
  },
  tt,
)

add_claim-Linked_example : All (Linked (with_claim claim ledger)) (with_claim claim ledger).links
unfolding add_claim insert
add_claim-Linked_example =
    add_claim-Linked claim ledger (with_claim claim ledger) ledger-Linked refl
