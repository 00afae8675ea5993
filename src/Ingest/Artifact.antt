-- ===== src/Ingest/Artifact.antt =====
-- The artifact row of one WLC upload in tools/study_web/main.py: the columns and metadata keys that
-- the ingest reads or writes, and `media_wlc_upsert_artifact`. Each write of the row is one
-- statement of the database, so what an interrupted run leaves is a prefix of its writes.
pub mod Process
pub mod Retry
pub mod Scan
pub mod Invariant
pub mod Polled
pub mod Reached
pub mod Counts
pub mod Captures
pub mod Stranded
pub mod Answers
pub mod Quarantine
mod Tests
use srhc_observability_claud.Prelude.{
  ℕ, Bool, true, false, ◌||◌, Option, none, some, String, List, [], ◌∷◌, if◌then◌else◌,
}
use srhc_observability_claud.Prelude.Text.{Text}
use srhc_observability_claud.Ingest.Stability.{Observed}
use srhc_observability_claud.Ingest.Finalize.Types.{Category}

-- The values of the column ingest_state that the code writes.
pub data IngestState : Type 0 where
  upload_detected waiting_for_stability validating quarantined failed : IngestState
  validated promoted registered imported parsing parsed retry_pending : IngestState

-- `parse.get("status")`
pub data Status : Type 0 where
  complete : Status
  other : String → Status

-- The values of the column parser_status.
pub data ParserStatus : Type 0 where
  duplicate execution_disabled parse_failed : ParserStatus
  reported : Status → ParserStatus

-- A row. `validated_at` is whether the column is set.
pub record Artifact : Type 0 where
  pub ingest_state : IngestState
  pub source_path : String
  pub final_path : Option String
  pub sha256 : Option Text
  pub size_bytes : Option ℕ
  pub validated_at : Bool
  pub capture_id : Option String
  pub parser_status : Option ParserStatus
  pub visibility_class : Option String
  pub error_message : Option String
  pub observed : Option Observed
  pub failure_category : Option Category
  pub retry_count : Option ℕ
  pub duplicate_of : Option String

-- The arguments of `media_wlc_upsert_artifact` have the same fields.
abbrev pub Upsert : Type 0
Upsert = Artifact

-- `*base, ingest_state=state` with the other arguments left out.
abbrev pub base : String → IngestState → Upsert
base source_path state = record {
  ingest_state = state;
  source_path = source_path;
  final_path = none;
  sha256 = none;
  size_bytes = none;
  validated_at = false;
  capture_id = none;
  parser_status = none;
  visibility_class = none;
  error_message = none;
  observed = none;
  failure_category = none;
  retry_count = none;
  duplicate_of = none;
}

abbrev pub coalesce : {A : Type 0} → Option A → Option A → Option A
coalesce none old = old
coalesce (some new) old = some new

-- `insert … on conflict (artifact_id) do update`. The new keys of the metadata win.
unfoldable pub media_wlc_upsert_artifact : Option Artifact → Upsert → Artifact
media_wlc_upsert_artifact none u = u
media_wlc_upsert_artifact (some a) u = record {
  ingest_state = u.ingest_state;
  source_path = u.source_path;
  final_path = coalesce u.final_path a.final_path;
  sha256 = coalesce u.sha256 a.sha256;
  size_bytes = coalesce u.size_bytes a.size_bytes;
  validated_at = u.validated_at || a.validated_at;
  capture_id = coalesce u.capture_id a.capture_id;
  parser_status = coalesce u.parser_status a.parser_status;
  visibility_class = coalesce u.visibility_class a.visibility_class;
  error_message = u.error_message;
  observed = coalesce u.observed a.observed;
  failure_category = coalesce u.failure_category a.failure_category;
  retry_count = coalesce u.retry_count a.retry_count;
  duplicate_of = coalesce u.duplicate_of a.duplicate_of;
}

-- Some writes, in their order.
unfoldable pub upserts : Option Artifact → List Upsert → Option Artifact
upserts row [] = row
upserts row (u ∷ rest) = upserts (some (media_wlc_upsert_artifact row u)) rest

-- What a run writes and the state in its answer, `none` for "error".
pub record Run : Type 0 where
  pub writes : List Upsert
  pub answer : Option IngestState

-- `media_register_capture_record` behind `media_wlc_validate_session_capture`.
pub data Registration : Type 0 where
  rejected : (detail : String) → Registration
  capture : (capture_id : String) → Registration

-- `media_run_capture_parse` returns, or it raises an `HTTPException`.
pub data Parse : Type 0 where
  raised : (status_code : ℕ) (detail : String) → Parse
  returned : Status → (error : Option String) → Parse

-- The last write after a parse that returned, with the count of retries it sets on a failure.
unfoldable pub parse_write : Upsert → Option ℕ → Status → Option String → Upsert
parse_write u count complete error = record u {
  ingest_state = parsed;
  parser_status = some (reported complete);
  error_message = error;
}
parse_write u count (other status) error = record u {
  ingest_state = failed;
  parser_status = some (reported (other status));
  error_message = error;
  failure_category = some Category.parser_failed;
  retry_count = count;
}

unfoldable pub parse_state : Status → IngestState
parse_state complete = parsed
parse_state (other status) = failed
