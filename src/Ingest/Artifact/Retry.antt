-- ===== src/Ingest/Artifact/Retry.antt =====
-- `media_wlc_retry_one` and the query of `media_wlc_retry_promoted_artifacts`.
use srhc_observability_claud.Prelude.{
  ℕ, ◌+◌, Bool, true, false, ◌&&◌, leb, ◌==◌, Option, none, some, String, [], ◌∷◌, if◌then◌else◌,
}
use srhc_observability_claud.Ingest.Finalize.Types.{
  promotion_copy_failed, capture_registration_failed, parser_failed, retry_limit_reached,
}
use srhc_observability_claud.Ingest.Artifact.{
  IngestState, Artifact, Upsert, base, Run, Registration, Parse, parse_write, parse_state, failed,
  promoted, registered, imported, parsing, retry_pending, parse_failed, rejected, capture, raised,
  returned,
}
use srhc_observability_claud.Ingest.Artifact.Process.Register.{prepend}

abbrev pub wlc_ingest_max_retries : ℕ
wlc_ingest_max_retries = 5

-- `coalesce((metadata->>'retry_count')::int, 0)`
unfoldable pub retry_count_of : Option ℕ → ℕ
retry_count_of none = 0
retry_count_of (some n) = n

abbrev pub path_of : Option String → String
path_of none = ""
path_of (some path) = path

-- What a retry reads from outside; `unavailable` is the detail of a failed validation of the file.
pub record RetryInputs : Type 0 where
  pub unavailable : Option String
  pub registration : Registration
  pub parse : Parse

-- The parse again, and its last write.
unfoldable pub retry_parse : String → ℕ → String → Parse → Run
unfolding parse_write parse_state
retry_parse path count capture_id (raised code detail) =
    let u : Upsert = record (base path failed) { capture_id = some capture_id } in
    if code == 409
    then record {
      writes = record u { ingest_state = retry_pending } ∷ [];
      answer = some retry_pending;
    }
    else record {
      writes =
          record u {
            parser_status = some parse_failed;
            error_message = some detail;
            retry_count = some (count + 1);
            failure_category = some parser_failed;
          }
          ∷ [];
      answer = some failed;
    }
retry_parse path count capture_id (returned status error) =
    let u : Upsert = record (base path failed) { capture_id = some capture_id } in
    record {
      writes = parse_write u (some (count + 1)) status error ∷ [];
      answer = some (parse_state status);
    }

unfoldable pub retry_capture : String → ℕ → String → Parse → Run
unfolding retry_parse
retry_capture path count capture_id parse =
    prepend (record (base path retry_pending) { capture_id = some capture_id })
      (prepend (record (base path parsing) { capture_id = some capture_id })
        (retry_parse path count capture_id parse))

-- The capture that the row has, or a new registration.
unfoldable pub capture_for : Option String → Registration → Registration
capture_for (some capture_id) registration = capture capture_id
capture_for none registration = registration

unfoldable pub retry_registered : String → ℕ → Parse → Registration → Run
unfolding retry_capture
retry_registered path count parse (rejected detail) = record {
  writes =
      record (base path failed) {
        error_message = some detail;
        retry_count = some (count + 1);
        failure_category = some capture_registration_failed;
      }
      ∷ [];
  answer = some failed;
}
retry_registered path count parse (capture capture_id) = retry_capture path count capture_id parse

unfoldable pub retry_available : String → ℕ → Option String → RetryInputs → Option String → Run
unfolding retry_registered capture_for
retry_available path count capture_id i none =
    retry_registered path count i.parse (capture_for capture_id i.registration)
retry_available path count capture_id i (some detail) = record {
  writes =
      record (base path failed) {
        error_message = some detail;
        retry_count = some (count + 1);
        failure_category = some promotion_copy_failed;
      }
      ∷ [];
  answer = some failed;
}

unfoldable pub media_wlc_retry_one : RetryInputs → Artifact → Run
unfolding retry_available retry_count_of
media_wlc_retry_one i row =
    let path = path_of row.final_path in
    let count = retry_count_of row.retry_count in
    if leb wlc_ingest_max_retries count
    then record {
      writes =
          record (base path failed) {
            error_message = some "Retry limit reached; manual intervention required.";
            retry_count = some count;
            failure_category = some retry_limit_reached;
          }
          ∷ [];
      answer = some failed;
    }
    else retry_available path count row.capture_id i i.unavailable

unfoldable pub is_retry_state : IngestState → Bool
is_retry_state promoted = true
is_retry_state registered = true
is_retry_state imported = true
is_retry_state failed = true
is_retry_state retry_pending = true
is_retry_state _ = false

abbrev pub is_some : {A : Type 0} → Option A → Bool
is_some none = false
is_some (some x) = true

-- The condition of the query.
unfoldable pub is_retried : Artifact → Bool
unfolding is_retry_state
is_retried row = is_retry_state row.ingest_state && is_some row.final_path
