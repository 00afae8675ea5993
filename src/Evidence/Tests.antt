-- ===== src/Evidence/Tests.antt =====
-- The verdict at a concrete attempt.
use srhc_observability_claud.Prelude.{◌≡◌, refl, true, false, some, List, [], ◌∷◌}
use srhc_observability_claud.Evidence.Verdict.{
  Snapshot, missed, high, membership_failure, compute_verdict, best_snapshot, during, richest,
  decide,
}
use srhc_observability_claud.Evidence.Verdict.Failure.{IsBest, membership_failure_has_evidence}

-- A snapshot before the broadcast with more fields, and one during it without the receiver.
abbrev taken : List Snapshot
taken =
    record { is_during = false; has_group = true; member = some true; filled = 9 }
    ∷ record { is_during = true; has_group = true; member = some false; filled = 5 }
    ∷ []

is_failure : (compute_verdict missed taken []).verdict ≡ membership_failure
unfolding compute_verdict best_snapshot during richest decide
is_failure = refl

membership_failure_has_evidence_example :
    (missed ≡ missed)
    × ((compute_verdict missed taken []).verdict_confidence ≡ high)
    × ((s : Snapshot) × IsBest s taken × (s.has_group ≡ true) × (s.member ≡ some false))
membership_failure_has_evidence_example = membership_failure_has_evidence missed taken [] is_failure
