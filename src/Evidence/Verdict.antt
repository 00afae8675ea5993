-- ===== src/Evidence/Verdict.antt =====
-- `_best_snapshot` and `compute_verdict`. Of a snapshot, its phase, its group, the membership of the
-- receiver and the number of its filled fields are kept; of an artifact, whether it exists and its
-- container is valid. Texts that only explain are left out.
pub mod Failure
use mathlib.Core.Path.{sym, ap, subst}
use srhc_observability_claud.Prelude.{
  ◌∙◌, sym, ap, ℕ, ◌≤◌, ◌≡◌, ◌⊎◌, inl, inr, refl, Bool, true, false, not, ◌&&◌, ◌||◌, ltb, Option,
  none, some, List, [], ◌∷◌, ◌++◌, if◌then◌else◌, arith, Bool-cases,
}

pub record Snapshot : Type 0 where
  pub is_during : Bool
  pub has_group : Bool
  pub member : Option Bool
  pub filled : ℕ

pub record CaptureArtifact : Type 0 where
  pub exists : Bool
  pub valid_container : Bool

pub data AudioResult : Type 0 where
  heard missed partial choppy unknown : AudioResult

pub data VerdictKind : Type 0 where
  inconclusive baseline_success membership_failure media_degraded : VerdictKind

pub data Level : Type 0 where
  low medium high : Level

pub data Finding : Type 0 where
  membership_missing membership_present capture_container_valid : Finding

pub record Verdict : Type 0 where
  pub verdict : VerdictKind
  pub verdict_confidence : Level
  pub findings : List Finding

unfoldable pub during : List Snapshot → List Snapshot
during [] = []
during (s ∷ rest) = let found = during rest in if s.is_during then s ∷ found else found

-- `max(candidates, key=…)`: the first of the greatest.
unfoldable pub richest : Snapshot → List Snapshot → Snapshot
richest best [] = best
richest best (s ∷ rest) = richest (if ltb best.filled s.filled then s else best) rest

abbrev pub richest_of : List Snapshot → Option Snapshot
richest_of [] = none
richest_of (s ∷ rest) = some (richest s rest)

-- `during or snapshots`
abbrev pub or_else : List Snapshot → List Snapshot → List Snapshot
or_else [] snapshots = snapshots
or_else (s ∷ rest) snapshots = s ∷ rest

unfoldable pub best_snapshot : List Snapshot → Option Snapshot
unfolding during richest
best_snapshot snapshots = richest_of (or_else (during snapshots) snapshots)

abbrev pub group_of : Option Snapshot → Bool
group_of none = false
group_of (some s) = s.has_group

abbrev pub member_of : Option Snapshot → Option Bool
member_of none = none
member_of (some s) = s.member

unfoldable pub any_valid : List CaptureArtifact → Bool
any_valid [] = false
any_valid (a ∷ rest) = a.exists && a.valid_container || any_valid rest

unfoldable pub membership_findings : Option Bool → List Finding
membership_findings none = []
membership_findings (some false) = membership_missing ∷ []
membership_findings (some true) = membership_present ∷ []

-- The chain of conditions: the verdict and its confidence.
unfoldable pub decide : AudioResult → Bool → Option Bool → Bool → VerdictKind × Level
decide heard group member pcap_valid = (baseline_success, medium)
decide missed true (some false) pcap_valid = (membership_failure, high)
decide missed false member pcap_valid = (inconclusive, low)
decide missed true (some true) true = (inconclusive, medium)
decide missed true (some true) false = (inconclusive, low)
decide missed true none pcap_valid = (inconclusive, low)
decide partial group member true = (media_degraded, low)
decide partial group member false = (inconclusive, low)
decide choppy group member true = (media_degraded, low)
decide choppy group member false = (inconclusive, low)
decide unknown group member pcap_valid = (inconclusive, low)

unfoldable pub compute_verdict : AudioResult → List Snapshot → List CaptureArtifact → Verdict
unfolding best_snapshot any_valid membership_findings decide
compute_verdict audio_result snapshots artifacts =
    let snapshot = best_snapshot snapshots in
    let pcap_valid = any_valid artifacts in
    let result = decide audio_result (group_of snapshot) (member_of snapshot) pcap_valid in
    record {
      verdict = result.0;
      verdict_confidence = result.1;
      findings =
          membership_findings (member_of snapshot)
          ++ (if pcap_valid then capture_container_valid ∷ [] else []);
    }
