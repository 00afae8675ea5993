-- ===== src/Ingest/Artifact/Invariant.antt =====
-- An invariant of artifact rows, and of the writes that make them.
use mathlib.Core.Path.{subst}
use srhc_observability_claud.Prelude.{
  sym, ◌≤◌, ◌≡◌, refl, ℕ, Bool, true, false, not, ◌&&◌, ◌||◌, Option, none, some, List, [], ◌∷◌,
  take, arith, zero, suc,
}
use srhc_observability_claud.Ingest.Finalize.Types.{Category}
use srhc_observability_claud.Ingest.Artifact.{
  coalesce, IngestState, Artifact, Upsert, media_wlc_upsert_artifact, upserts, upload_detected,
  waiting_for_stability, validating, quarantined, failed, registered, imported, parsing,
  retry_pending,
}
use srhc_observability_claud.Ingest.Artifact.Process.{is_quarantine_reason}
use srhc_observability_claud.Ingest.Artifact.Retry.{is_some, retry_count_of, wlc_ingest_max_retries}

-- The states after the finalization, other than failed.
unfoldable pub needs_final : IngestState → Bool
needs_final upload_detected = false
needs_final waiting_for_stability = false
needs_final validating = false
needs_final quarantined = false
needs_final failed = false
needs_final _ = true

-- The states after the registration, other than failed and parsed.
unfoldable pub needs_capture : IngestState → Bool
needs_capture registered = true
needs_capture imported = true
needs_capture parsing = true
needs_capture retry_pending = true
needs_capture _ = false

abbrev pub is_reason : Option Category → Bool
is_reason none = false
is_reason (some category) = is_quarantine_reason category

-- A failure has a category, and a quarantine has one that says so.
unfoldable pub has_reason : IngestState → Option Category → Bool
has_reason failed category = is_some category
has_reason quarantined category = is_reason category
has_reason _ category = true

abbrev pub implies : Bool → Bool → Bool
implies a b = not a || b

-- A write keeps the invariant, if `has` says whether the row already has a final path.
abbrev pub WriteOk : Bool → Upsert → Type 0
WriteOk has u =
    (implies (is_some u.final_path) (has || (is_some u.sha256 && u.validated_at)) ≡ true)
    × (implies (needs_final u.ingest_state) (has || is_some u.final_path) ≡ true)
    × (implies (needs_capture u.ingest_state) (is_some u.capture_id) ≡ true)
    × (retry_count_of u.retry_count ≤ wlc_ingest_max_retries)
    × (has_reason u.ingest_state u.failure_category ≡ true)

-- A row with a final path has a hash and was validated; a row after the finalization has a final
-- path; a row after the registration has a capture; there are at most five counted retries; and a
-- failed or quarantined row has its reason.
abbrev pub IsConsistent : Artifact → Type 0
IsConsistent a = WriteOk false a

is_some-coalesce :
    {A : Type 0} → (new old : Option A) → is_some (coalesce new old) ≡ (is_some new || is_some old)
is_some-coalesce none old = refl
is_some-coalesce (some x) old = refl

-- The Boolean conditions of one write after another.
evidence_update :
    (uf af uh ah uv av : Bool)
    → implies af (ah && av) ≡ true
    → implies uf (af || (uh && uv)) ≡ true
    → implies (uf || af) ((uh || ah) && (uv || av)) ≡ true
evidence_update uf af uh ah uv av h k = ground arith

count_update :
    (u a : Option ℕ)
    → retry_count_of a ≤ wlc_ingest_max_retries
    → retry_count_of u ≤ wlc_ingest_max_retries
    → retry_count_of (coalesce u a) ≤ wlc_ingest_max_retries
count_update none a h k = h
count_update (some n) a h k = k

has_reason_update :
    (state : IngestState) (u a : Option Category)
    → has_reason state u ≡ true
    → has_reason state (coalesce u a) ≡ true
unfolding has_reason
has_reason_update state none a h = ground arith
has_reason_update state (some c) a h = h

implies_or : (a b c : Bool) → implies a b ≡ true → implies a (b || c) ≡ true
implies_or a b c h = ground arith

implies_swap : (a b c : Bool) → implies a (b || c) ≡ true → implies a (c || b) ≡ true
implies_swap a b c h = ground arith

WriteOk-update :
    (a : Artifact) (u : Upsert)
    → IsConsistent a
    → WriteOk (is_some a.final_path) u
    → IsConsistent (media_wlc_upsert_artifact (some a) u)
unfolding media_wlc_upsert_artifact
WriteOk-update a u (h1, h2, h3, h4, h5) (k1, k2, k3, k4, k5) =
    rw
      (
        is_some-coalesce u.final_path a.final_path,
        is_some-coalesce u.sha256 a.sha256,
        is_some-coalesce u.capture_id a.capture_id,
      )
      (
        evidence_update (is_some u.final_path) (is_some a.final_path) (is_some u.sha256)
            (is_some a.sha256) u.validated_at a.validated_at h1 k1,
        implies_swap (needs_final u.ingest_state) (is_some a.final_path) (is_some u.final_path) k2,
        implies_or (needs_capture u.ingest_state) (is_some u.capture_id) (is_some a.capture_id) k3,
        count_update u.retry_count a.retry_count h4 k4,
        has_reason_update u.ingest_state u.failure_category a.failure_category k5,
      )

-- Writes one after another.
abbrev pub WritesOk : Bool → List Upsert → Type 0
WritesOk has [] = Unit {0}
WritesOk has (u ∷ rest) = WriteOk has u × WritesOk (is_some u.final_path || has) rest

abbrev pub has_final : Option Artifact → Bool
has_final none = false
has_final (some a) = is_some a.final_path

abbrev pub AreConsistent : Option Artifact → Type 0
AreConsistent none = Unit {0}
AreConsistent (some a) = IsConsistent a

WriteOk-upsert :
    (row : Option Artifact) (u : Upsert)
    → AreConsistent row
    → WriteOk (has_final row) u
    → IsConsistent (media_wlc_upsert_artifact row u)
unfolding media_wlc_upsert_artifact
WriteOk-upsert none u h k = k
WriteOk-upsert (some a) u h k = WriteOk-update a u h k

has_final-upsert :
    (row : Option Artifact) (u : Upsert)
    → is_some (media_wlc_upsert_artifact row u).final_path ≡ (is_some u.final_path || has_final row)
unfolding media_wlc_upsert_artifact
has_final-upsert none u = ground arith
has_final-upsert (some a) u = is_some-coalesce u.final_path a.final_path

-- A prefix of good writes keeps a row consistent.
pub upserts-AreConsistent :
    (row : Option Artifact) (writes : List Upsert) (n : ℕ)
    → AreConsistent row
    → WritesOk (has_final row) writes
    → AreConsistent (upserts row (take n writes))
unfolding upserts
upserts-AreConsistent row writes zero h k = h
upserts-AreConsistent row [] (suc n) h k = h
upserts-AreConsistent row (u ∷ rest) (suc n) h (k, ks) =
    upserts-AreConsistent (some (media_wlc_upsert_artifact row u)) rest n (WriteOk-upsert row u h k)
      (subst (λ b. WritesOk b rest) (sym (has_final-upsert row u)) ks)
