-- ===== src/Ingest/Artifact/Captures.antt =====
-- The registered capture of a row under media_wlc_retry_one.
use srhc_observability_claud.Ingest.Artifact.Counts.{written, retried, count_of}
use srhc_observability_claud.Prelude.{
  ◌≡◌, refl, ℕ, leb, ◌==◌, Option, none, some, String, Bool-cases, inl, inr, ◌∙◌,
}
use srhc_observability_claud.Ingest.Artifact.{
  media_wlc_upsert_artifact, Run, Artifact, Registration, Parse, parse_write, complete, other,
  raised, returned,
}
use srhc_observability_claud.Ingest.Artifact.Retry.{
  path_of, capture_for, RetryInputs, media_wlc_retry_one, retry_parse, retry_capture,
  retry_registered, retry_available,
}

abbrev Keeps : Artifact → String → Run → Type 0
Keeps row c run = (written row run.writes).capture_id ≡ some c

retry_capture-Keeps :
    (row : Artifact) (path c : String) (n : ℕ) (parse : Parse)
    → Keeps row c (retry_capture path n c parse)
unfolding retry_capture retry_parse parse_write media_wlc_upsert_artifact
retry_capture-Keeps row path c n (returned complete error) = refl
retry_capture-Keeps row path c n (returned (other status) error) = refl
retry_capture-Keeps row path c n (raised code detail) = elim (Bool-cases (code == 409)) [
  | inl e ↦ simp e refl
  | inr e ↦ simp e refl
]

retry_available-again :
    (path : String) (n : ℕ) (o : Option String) (c : String) (i : RetryInputs)
    (again : Registration) (detail : Option String)
    → o ≡ some c
    → retry_available path n o i detail
      ≡ retry_available path n o (record i { registration = again }) detail
unfolding retry_available capture_for
retry_available-again path n none c i again detail h = cc
retry_available-again path n (some o) c i again none h = refl
retry_available-again path n (some o) c i again (some detail) h = refl

retry_available-Keeps :
    (row : Artifact) (path : String) (n : ℕ) (o : Option String) (c : String) (i : RetryInputs)
    (detail : Option String)
    → row.capture_id ≡ some c
    → o ≡ some c
    → Keeps row c (retry_available path n o i detail)
unfolding retry_available capture_for retry_registered media_wlc_upsert_artifact
retry_available-Keeps row path n none c i detail k h = cc
retry_available-Keeps row path n (some o) c i none k h =
    retry_capture-Keeps row path o n i.parse ∙ h
retry_available-Keeps row path n (some o) c i (some detail) k h = k

-- A row whose capture is registered keeps it in every retry, and the retry does not depend on
-- what a registration would return: the capture is not registered again.
retry_keeps_capture :
    (i : RetryInputs) (again : Registration) (row : Artifact) (c : String)
    → row.capture_id ≡ some c
    → (media_wlc_retry_one i row ≡ media_wlc_retry_one (record i { registration = again }) row)
      × ((retried i row).capture_id ≡ some c)
unfolding media_wlc_retry_one
retry_keeps_capture i again row c h =
    let path = path_of row.final_path in
    elim (Bool-cases (leb 5 (count_of row))) [
      | inl e ↦ simp e (refl, unfold media_wlc_upsert_artifact in h)
      | inr e ↦ simp e (
        retry_available-again path (count_of row) row.capture_id c i again i.unavailable h,
        retry_available-Keeps row path (count_of row) row.capture_id c i i.unavailable h h,
      )
    ]
