-- ===== src/Ingest/Artifact/Counts.antt =====
-- The count of retries under media_wlc_retry_one.
use srhc_observability_claud.Prelude.{
  ◌≡◌, refl, ℕ, ◌+◌, Bool, true, false, leb, ◌==◌, Option, none, some, String, List, [], ◌∷◌,
  Bool-cases, if◌then◌else◌, inl, inr,
}
use srhc_observability_claud.Ingest.Artifact.{
  retry_pending, parse_state, media_wlc_upsert_artifact, Upsert, Run, parsing, IngestState,
  Artifact, Registration, Parse, parse_write, base, failed, complete, other, raised, returned,
  rejected, capture,
}
use srhc_observability_claud.Ingest.Artifact.Retry.{
  path_of, capture_for, RetryInputs, media_wlc_retry_one, retry_count_of, retry_parse,
  retry_capture, retry_registered, retry_available,
}

abbrev pub is_failed : Option IngestState → Bool
is_failed (some failed) = true
is_failed _ = false

abbrev pub written : Artifact → List Upsert → Artifact
written row [] = row
written row (u ∷ rest) = written (media_wlc_upsert_artifact (some row) u) rest

-- The row that one retry leaves.
abbrev pub retried : RetryInputs → Artifact → Artifact
retried i row = written row (media_wlc_retry_one i row).writes

abbrev pub count_of : Artifact → ℕ
count_of row = retry_count_of row.retry_count

abbrev Counted : Artifact → ℕ → Run → Type 0
Counted row n run = count_of (written row run.writes) ≡ (if is_failed run.answer then n + 1 else n)

retry_parse-Counted :
    (row : Artifact) (path c : String) (n : ℕ) (parse : Parse)
    → count_of row ≡ n
    → Counted row n (retry_parse path n c parse)
unfolding retry_parse parse_write parse_state media_wlc_upsert_artifact retry_count_of
retry_parse-Counted row path c n (returned complete error) h = h
retry_parse-Counted row path c n (returned (other status) error) h = refl
retry_parse-Counted row path c n (raised code detail) h = elim (Bool-cases (code == 409)) [
  | inl e ↦ simp e h
  | inr e ↦ simp e refl
]

retry_registered-Counted :
    (row : Artifact) (path : String) (n : ℕ) (parse : Parse) (r : Registration)
    → count_of row ≡ n
    → Counted row n (retry_registered path n parse r)
unfolding retry_registered retry_capture media_wlc_upsert_artifact retry_count_of
retry_registered-Counted row path n parse (rejected detail) h = refl
retry_registered-Counted row path n parse (capture c) h =
    let u : Upsert = record (base path retry_pending) { capture_id = some c } in
    let v : Upsert = record (base path parsing) { capture_id = some c } in
    retry_parse-Counted
      (media_wlc_upsert_artifact (some (media_wlc_upsert_artifact (some row) u)) v) path c n parse h

retry_available-Counted :
    (row : Artifact) (path : String) (n : ℕ) (c : Option String) (i : RetryInputs)
    (detail : Option String)
    → count_of row ≡ n
    → Counted row n (retry_available path n c i detail)
unfolding retry_available media_wlc_upsert_artifact retry_count_of
retry_available-Counted row path n c i none h =
    retry_registered-Counted row path n i.parse (capture_for c i.registration) h
retry_available-Counted row path n c i (some detail) h = refl

-- A retry counts one more failure exactly if its answer is failed and the limit was not reached.
-- In particular an answer retry_pending, after a conflict, counts nothing.
retry_counts_failures :
    (i : RetryInputs) (row : Artifact)
    → count_of (retried i row) ≡ (
        if leb 5 (count_of row)
        then count_of row
        else if is_failed (media_wlc_retry_one i row).answer
        then count_of row + 1
        else count_of row)
unfolding media_wlc_retry_one
retry_counts_failures i row = elim (Bool-cases (leb 5 (count_of row))) [
  | inl e ↦ simp e (unfold media_wlc_upsert_artifact retry_count_of in refl)
  | inr e ↦ simp e (
      retry_available-Counted row (path_of row.final_path) (count_of row) row.capture_id i
        i.unavailable refl)
]
