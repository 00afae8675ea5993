-- ===== src/Ingest/Artifact/Process.antt =====
-- `media_wlc_process_incoming`: one poll of one upload.
pub mod Register
use srhc_observability_claud.Ingest.Artifact.Process.Register.{
  Inputs, parse_capture, prepend, execute, register,
}
use srhc_observability_claud.Prelude.{
  ℕ, Bool, true, false, Option, none, some, String, [], ◌∷◌, if◌then◌else◌,
}
use srhc_observability_claud.Prelude.Text.{Text}
use srhc_observability_claud.Ingest.Stability.{
  Observed, Signature, Decision, decision_at, wait_new, wait_changed, wait_too_soon, ready,
}
use srhc_observability_claud.Ingest.Finalize.Types.{
  Category, Outcome, finalized, invalid_magic, truncated_container, symlink_rejected,
  hardlink_rejected, not_regular_file, size_limit_exceeded, source_changed_during_claim,
  promotion_hash_mismatch, promotion_copy_failed, capture_registration_failed, parser_failed,
}
use srhc_observability_claud.Ingest.Artifact.{
  IngestState, Artifact, Upsert, base, Run, Registration, Parse, parse_write, parse_state,
  upload_detected, waiting_for_stability, validating, quarantined, failed, validated, promoted,
  registered, imported, parsing, parsed, retry_pending, duplicate, execution_disabled, parse_failed,
  rejected, capture, raised, returned,
}

-- `SOURCE_QUARANTINE_REASONS`
unfoldable pub is_quarantine_reason : Category → Bool
is_quarantine_reason invalid_magic = true
is_quarantine_reason truncated_container = true
is_quarantine_reason symlink_rejected = true
is_quarantine_reason hardlink_rejected = true
is_quarantine_reason not_regular_file = true
is_quarantine_reason size_limit_exceeded = true
is_quarantine_reason source_changed_during_claim = true
is_quarantine_reason promotion_hash_mismatch = true
is_quarantine_reason _ = false

-- The states in which an upload is not looked at again.
unfoldable pub is_ingested : IngestState → Bool
is_ingested promoted = true
is_ingested registered = true
is_ingested imported = true
is_ingested parsing = true
is_ingested parsed = true
is_ingested retry_pending = true
is_ingested _ = false

-- The row of a finalized upload.
unfoldable pub finalized_row : Inputs → String → Text → IngestState → Upsert
finalized_row i final sum state = record (base i.incoming_pcap state) {
  final_path = some final;
  sha256 = some sum;
  size_bytes = some i.final_size;
  validated_at = true;
  visibility_class = i.visibility;
}

-- After the search for a row of the session with the same hash.
unfoldable pub promote_unless : Inputs → String → Text → Option (String × Option String) → Run
unfolding register finalized_row
promote_unless i final sum (some (artifact_id, capture_id)) = record {
  writes =
      record (base i.incoming_pcap parsed) {
        final_path = some final;
        sha256 = some sum;
        capture_id = capture_id;
        parser_status = some duplicate;
        validated_at = true;
        duplicate_of = some artifact_id;
      }
      ∷ [];
  answer = some parsed;
}
promote_unless i final sum none =
    prepend (finalized_row i final sum promoted) (register i final i.registration)

-- After the finalization.
unfoldable pub promote : Inputs → String → Text → Run
unfolding promote_unless finalized_row
promote i final sum =
    prepend (finalized_row i final sum validated) (promote_unless i final sum i.same_content)

unfoldable pub failed_state : Category → IngestState
unfolding is_quarantine_reason
failed_state category = if is_quarantine_reason category then quarantined else failed

unfoldable pub after_finalize : Inputs → ℕ → String → Outcome → Run
unfolding promote failed_state
after_finalize i size final (Outcome.failed category) = record {
  writes =
      record (base i.incoming_pcap (failed_state category)) {
        size_bytes = some size;
        error_message = some i.failure_message;
        failure_category = some category;
      }
      ∷ [];
  answer = some (failed_state category);
}
after_finalize i size final (finalized sum removed) = promote i final sum

unfoldable pub finalize_to : Inputs → ℕ → Outcome → Option String → Run
unfolding after_finalize
finalize_to i size outcome none = record {
  writes =
      record (base i.incoming_pcap failed) {
        error_message = some "Could not resolve the pcaps/ destination for this upload.";
        failure_category = some promotion_copy_failed;
      }
      ∷ [];
  answer = some failed;
}
finalize_to i size outcome (some final) = after_finalize i size final outcome

-- The decision is ready.
unfoldable pub process_ready : Inputs → ℕ → Outcome → Run
unfolding finalize_to
process_ready i size outcome =
    prepend (record (base i.incoming_pcap validating) { size_bytes = some size })
      (finalize_to i size outcome i.promoted_path)

unfoldable pub act : Inputs → Signature → Outcome → Decision → Run
unfolding process_ready
act i current outcome wait_new = record {
  writes =
      record (base i.incoming_pcap upload_detected) {
        size_bytes = some current.size_bytes;
        observed = some (record { signature = current; observed_at = i.now });
      }
      ∷ [];
  answer = some upload_detected;
}
act i current outcome wait_changed = record {
  writes =
      record (base i.incoming_pcap waiting_for_stability) {
        size_bytes = some current.size_bytes;
        observed = some (record { signature = current; observed_at = i.now });
      }
      ∷ [];
  answer = some waiting_for_stability;
}
act i current outcome wait_too_soon = record {
  writes =
      record (base i.incoming_pcap waiting_for_stability) { size_bytes = some current.size_bytes }
      ∷ [];
  answer = some waiting_for_stability;
}
act i current outcome ready = process_ready i current.size_bytes outcome

-- `existing and existing.get("ingest_state") in {…}`
unfoldable pub already : Option Artifact → Option IngestState
unfolding is_ingested
already none = none
already (some a) = if is_ingested a.ingest_state then some a.ingest_state else none

abbrev pub observation : Option Artifact → Option Observed
observation none = none
observation (some a) = a.observed

unfoldable pub poll : Inputs → Outcome → Option Observed → Option Signature → Run
unfolding act
poll i outcome observed none = record { writes = []; answer = none }
poll i outcome observed (some current) =
    act i current outcome
      (decision_at i.stability observed (record { current = current; now = i.now }))

unfoldable pub process_unless : Inputs → Outcome → Option Observed → Option IngestState → Run
unfolding poll
process_unless i outcome observed (some state) = record { writes = []; answer = some state }
process_unless i outcome observed none = poll i outcome observed i.signature

-- The poll, with the outcome that the finalization has if it is called.
unfoldable pub media_wlc_process_incoming : Inputs → Outcome → Option Artifact → Run
unfolding process_unless already
media_wlc_process_incoming i outcome existing =
    process_unless i outcome (observation existing) (already existing)
