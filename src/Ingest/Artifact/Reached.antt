-- ===== src/Ingest/Artifact/Reached.antt =====
-- The writes of media_wlc_retry_one, and sequences of scans, against the invariant of the rows.
use mathlib.Core.Path.{subst}
use srhc_observability_claud.Ingest.Artifact.Polled.{parse_write-WriteOk, process-WritesOk}
use srhc_observability_claud.Prelude.{
  inl, inr, ◌==◌, ◌+◌, ◌≡◌, refl, ℕ, ◌≤◌, true, ◌&&◌, leb, Option, none, some, String, List, [],
  ◌∷◌, arith, Bool-cases,
}
use srhc_observability_claud.Ingest.Artifact.{
  Artifact, Registration, Parse, raised, returned, rejected, capture,
}
use srhc_observability_claud.Ingest.Artifact.Retry.{
  path_of, capture_for, RetryInputs, media_wlc_retry_one, is_retried, is_some, retry_count_of,
  wlc_ingest_max_retries, retry_parse, retry_capture, retry_registered, retry_available,
}
use srhc_observability_claud.Ingest.Artifact.Scan.{Scan, scan, scans, scan_writes, retry_writes}
use srhc_observability_claud.Ingest.Artifact.Invariant.{
  IsConsistent, needs_final, needs_capture, has_reason, WritesOk, AreConsistent, has_final,
  upserts-AreConsistent,
}

retry_parse-WritesOk :
    (path : String) (count : ℕ) (capture_id : String) (parse : Parse)
    → count + 1 ≤ wlc_ingest_max_retries
    → WritesOk true (retry_parse path count capture_id parse).writes
unfolding retry_parse needs_final needs_capture has_reason retry_count_of
retry_parse-WritesOk path count c (raised code detail) h = elim (Bool-cases (code == 409)) [
  | inl e ↦ simp e ((refl, refl, refl, ground arith, refl), tt)
  | inr e ↦ simp e ((refl, refl, refl, h, refl), tt)
]
retry_parse-WritesOk path count c (returned status error) h =
    (parse_write-WriteOk path c (some (count + 1)) status error h, tt)

retry_registered-WritesOk :
    (path : String) (count : ℕ) (parse : Parse) (r : Registration)
    → count + 1 ≤ wlc_ingest_max_retries
    → WritesOk true (retry_registered path count parse r).writes
unfolding retry_registered retry_capture needs_final needs_capture has_reason retry_count_of
retry_registered-WritesOk path count parse (rejected detail) h = ((refl, refl, refl, h, refl), tt)
retry_registered-WritesOk path count parse (capture c) h = (
  (refl, refl, refl, ground arith, refl),
  ((refl, refl, refl, ground arith, refl), retry_parse-WritesOk path count c parse h),
)

retry_available-WritesOk :
    (path : String) (count : ℕ) (c : Option String) (i : RetryInputs) (detail : Option String)
    → count + 1 ≤ wlc_ingest_max_retries
    → WritesOk true (retry_available path count c i detail).writes
unfolding retry_available needs_final needs_capture has_reason retry_count_of
retry_available-WritesOk path count c i none h =
    retry_registered-WritesOk path count i.parse (capture_for c i.registration) h
retry_available-WritesOk path count c i (some detail) h = ((refl, refl, refl, h, refl), tt)

retry-WritesOk :
    (i : RetryInputs) (row : Artifact)
    → retry_count_of row.retry_count ≤ wlc_ingest_max_retries
    → WritesOk true (media_wlc_retry_one i row).writes
unfolding media_wlc_retry_one needs_final needs_capture has_reason retry_count_of
retry-WritesOk i row h =
    elim (Bool-cases (leb wlc_ingest_max_retries (retry_count_of row.retry_count))) [
      | inl e ↦ simp e ((refl, refl, refl, h, refl), tt)
      | inr e ↦ simp e (
          retry_available-WritesOk (path_of row.final_path) (retry_count_of row.retry_count)
            row.capture_id i i.unavailable (ground arith))
    ]

retry_writes-WritesOk :
    (s : Scan) (row : Option Artifact)
    → AreConsistent row
    → WritesOk (has_final row) (retry_writes s row)
unfolding retry_writes
retry_writes-WritesOk s none h = tt
retry_writes-WritesOk s (some row) (h1, h2, h3, h4, h5) =
    elim (Bool-cases (s.inputs.execution_enabled && is_retried row)) [
      | inr e ↦ simp e tt
      | inl e ↦
          let final : is_some row.final_path ≡ true = unfold is_retried in ground arith in
          simp (e, final) (retry-WritesOk s.retry_inputs row h4)
    ]

scan-AreConsistent :
    (s : Scan) (row : Option Artifact) → AreConsistent row → AreConsistent (scan s row)
unfolding scan scan_writes
scan-AreConsistent s row h =
    upserts-AreConsistent row (scan_writes s row) s.completed h (elim (Bool-cases s.present) [
      | inl e ↦ simp e (process-WritesOk (has_final row) s.inputs s.outcome row)
      | inr e ↦ simp e (retry_writes-WritesOk s row h)
    ])

scans-AreConsistent :
    (ss : List Scan) (row : Option Artifact) → AreConsistent row → AreConsistent (scans ss row)
unfolding scans
scans-AreConsistent [] row h = h
scans-AreConsistent (s ∷ rest) row h =
    scans-AreConsistent rest (scan s row) (scan-AreConsistent s row h)

-- From no row, after any sequence of scans, each with any results from outside and interrupted
-- after any of its writes, a row has: if there is a final path, a hash and a validation; in the
-- states after the finalization a final path; in the states registered, imported, parsing and
-- retry_pending a capture; at most five counted retries; if failed a failure category; and if
-- quarantined a category that is a reason for quarantine.
pub scans-IsConsistent :
    (ss : List Scan) (row : Artifact) → scans ss none ≡ some row → IsConsistent row
scans-IsConsistent ss row h = subst AreConsistent h (scans-AreConsistent ss none tt)
