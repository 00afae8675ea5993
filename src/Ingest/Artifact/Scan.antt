-- ===== src/Ingest/Artifact/Scan.antt =====
-- `media_wlc_ingest_scan` as far as it is about one artifact: the poll of the upload if it is in
-- incoming/, and else the retry. A scan that is interrupted leaves a prefix of its writes.
use srhc_observability_claud.Prelude.{
  ℕ, Bool, ◌&&◌, Option, none, some, List, [], ◌∷◌, take, if◌then◌else◌,
}
use srhc_observability_claud.Ingest.Finalize.Types.{Outcome}
use srhc_observability_claud.Ingest.Artifact.{Artifact, Upsert, upserts}
use srhc_observability_claud.Ingest.Artifact.Process.{media_wlc_process_incoming}
use srhc_observability_claud.Ingest.Artifact.Process.Register.{Inputs}
use srhc_observability_claud.Ingest.Artifact.Retry.{RetryInputs, media_wlc_retry_one, is_retried}

-- `completed` is the number of writes after which the scan was interrupted, if it was.
pub record Scan : Type 0 where
  pub present : Bool
  pub inputs : Inputs
  pub outcome : Outcome
  pub retry_inputs : RetryInputs
  pub completed : ℕ

unfoldable pub retry_writes : Scan → Option Artifact → List Upsert
retry_writes s none = []
retry_writes s (some row) =
    if s.inputs.execution_enabled && is_retried row
    then (media_wlc_retry_one s.retry_inputs row).writes
    else []

unfoldable pub scan_writes : Scan → Option Artifact → List Upsert
unfolding retry_writes
scan_writes s row =
    if s.present
    then (media_wlc_process_incoming s.inputs s.outcome row).writes
    else retry_writes s row

unfoldable pub scan : Scan → Option Artifact → Option Artifact
unfolding scan_writes
scan s row = upserts row (take s.completed (scan_writes s row))

-- Some scans, in their order.
unfoldable pub scans : List Scan → Option Artifact → Option Artifact
unfolding scan
scans [] row = row
scans (s ∷ rest) row = scans rest (scan s row)
