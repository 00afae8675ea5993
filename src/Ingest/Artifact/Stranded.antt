-- ===== src/Ingest/Artifact/Stranded.antt =====
-- Rows in parsing and in retry_pending under scans and retries.
use srhc_observability_claud.Ingest.Artifact.Counts.{written, retried, count_of}
use mathlib.Core.Path.{subst}
use srhc_observability_claud.Prelude.{
  zero, suc, take, ◌≡◌, refl, ℕ, ◌<◌, false, leb, Option, none, some, String, List, [], ◌∷◌, arith,
  sym, ◌∙◌,
}
use srhc_observability_claud.Ingest.Artifact.{
  retry_pending, media_wlc_upsert_artifact, upserts, parsing, Artifact, raised,
}
use srhc_observability_claud.Ingest.Artifact.Process.{
  is_ingested, already, process_unless, media_wlc_process_incoming,
}
use srhc_observability_claud.Ingest.Artifact.Retry.{
  is_retry_state, path_of, RetryInputs, media_wlc_retry_one, is_retried, retry_parse, retry_capture,
  retry_registered, retry_available,
}
use srhc_observability_claud.Ingest.Artifact.Scan.{Scan, scan, scans, scan_writes, retry_writes}

scan_writes-parsing :
    (s : Scan) (row : Artifact) → row.ingest_state ≡ parsing → scan_writes s (some row) ≡ []
unfolding scan_writes retry_writes media_wlc_process_incoming process_unless already is_ingested
    is_retried is_retry_state
scan_writes-parsing s row h = simp h (ground arith)

upserts_nothing : (n : ℕ) (row : Option Artifact) → upserts row (take n []) ≡ row
unfolding upserts
upserts_nothing zero row = refl
upserts_nothing (suc n) row = refl

scan-parsing :
    (s : Scan) (row : Artifact) → row.ingest_state ≡ parsing → scan s (some row) ≡ some row
unfolding scan
scan-parsing s row h = rw (scan_writes-parsing s row h) (upserts_nothing s.completed (some row))

-- A row that is left in parsing, as by a scan that is interrupted during the parse, stays as it
-- is: no later scan changes it.
pub parsing_is_stuck :
    (ss : List Scan) (row : Artifact) → row.ingest_state ≡ parsing → scans ss (some row) ≡ some row
unfolding scans
parsing_is_stuck [] row h = refl
parsing_is_stuck (s ∷ rest) row h = rw (scan-parsing s row h) (parsing_is_stuck rest row h)

-- A number of retries with the same results from outside.
abbrev pub retry_times : ℕ → RetryInputs → Artifact → Artifact
retry_times zero i row = row
retry_times (suc n) i row = retry_times n i (retried i row)

retry_conflict :
    (i : RetryInputs) (detail : String) (row : Artifact) (c : String)
    → i.unavailable ≡ none
    → i.parse ≡ raised 409 detail
    → row.capture_id ≡ some c
    → count_of row < 5
    → media_wlc_retry_one i row
      ≡ retry_capture (path_of row.final_path) (count_of row) c (raised 409 detail)
unfolding media_wlc_retry_one retry_available retry_registered
retry_conflict i detail row c u p k n =
    let few : leb 5 (count_of row) ≡ false = ground arith in simp (few, u, p, k)

abbrev Conflicted : Artifact → Artifact → String → Type 0
Conflicted row after c =
    (after.ingest_state ≡ retry_pending)
    × (count_of after ≡ count_of row)
    × (after.capture_id ≡ some c)

after_conflict :
    (row : Artifact) (path detail c : String) (n : ℕ)
    → Conflicted row (written row (retry_capture path n c (raised 409 detail)).writes) c
unfolding retry_capture retry_parse media_wlc_upsert_artifact
after_conflict row path detail c n = (refl, refl, refl)

retried-Conflicted :
    (i : RetryInputs) (detail : String) (row : Artifact) (c : String)
    → i.unavailable ≡ none
    → i.parse ≡ raised 409 detail
    → row.capture_id ≡ some c
    → count_of row < 5
    → Conflicted row (retried i row) c
retried-Conflicted i detail row c u p k n =
    subst (λ run. Conflicted row (written row run.writes) c)
      (sym (retry_conflict i detail row c u p k n))
      (after_conflict row (path_of row.final_path) detail c (count_of row))

-- As long as the parse raises a conflict (409), for whatever reason, a row with a capture and
-- fewer than five counted failures is retry_pending again after any number of retries, and none
-- of them is counted: the limit on retries does not end these.
pub conflicts_never_end :
    (n : ℕ) (i : RetryInputs) (detail : String) (row : Artifact) (c : String)
    → i.unavailable ≡ none
    → i.parse ≡ raised 409 detail
    → row.capture_id ≡ some c
    → count_of row < 5
    → ((retry_times (suc n) i row).ingest_state ≡ retry_pending)
      × (count_of (retry_times (suc n) i row) ≡ count_of row)
conflicts_never_end zero i detail row c u p k h =
    let (s, t, _) = retried-Conflicted i detail row c u p k h in (s, t)
conflicts_never_end (suc n) i detail row c u p k h =
    let (s, t, v) = retried-Conflicted i detail row c u p k h in
    let (x, y) = conflicts_never_end n i detail (retried i row) c u p v (rw t h) in (x, y ∙ t)
