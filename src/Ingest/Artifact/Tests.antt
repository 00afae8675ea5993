-- ===== src/Ingest/Artifact/Tests.antt =====
-- The theorems on artifact rows at concrete scans.
use srhc_observability_claud.Prelude.{◌≡◌, refl, ℕ, true, none, some, List, [], ◌∷◌, arith, ◌<◌}
use srhc_observability_claud.Ingest.Stability.{
  plan_ingest_decision, decide_elapsed, Signature, store, decision_at,
}
use srhc_observability_claud.Ingest.Finalize.Types.{finalized}
use srhc_observability_claud.Ingest.Artifact.{
  media_wlc_upsert_artifact, Artifact, Upsert, base, upserts, parsing, retry_pending, raised,
  capture, rejected,
}
use srhc_observability_claud.Ingest.Artifact.Process.{
  process_unless, poll, act, process_ready, finalize_to, after_finalize, promote, promote_unless,
  finalized_row, is_ingested, media_wlc_process_incoming, already, observation,
}
use srhc_observability_claud.Ingest.Artifact.Process.Register.{
  register, execute, parse_capture, Inputs,
}
use srhc_observability_claud.Ingest.Artifact.Retry.{retry_count_of, RetryInputs}
use srhc_observability_claud.Ingest.Artifact.Scan.{scan_writes, retry_writes, Scan, scan, scans}
use srhc_observability_claud.Ingest.Artifact.Invariant.{IsConsistent}
use srhc_observability_claud.Ingest.Artifact.Reached.{scans-IsConsistent}
use srhc_observability_claud.Ingest.Artifact.Counts.{count_of}
use srhc_observability_claud.Ingest.Artifact.Stranded.{
  parsing_is_stuck, retry_times, conflicts_never_end,
}
use srhc_observability_claud.Ingest.Artifact.Answers.{state_of, process_answers}

abbrev upload : Signature
upload = record { size_bytes = 100; mtime_ns = 7 }

abbrev poll_at : ℕ → Inputs
poll_at now = record {
  incoming_pcap = "incoming/a.pcap";
  signature = some upload;
  now = now;
  stability = 20;
  promoted_path = some "pcaps/a.pcap";
  failure_message = "";
  final_size = 100;
  visibility = none;
  same_content = none;
  registration = capture "cap-1";
  execution_enabled = true;
  parse = raised 500 "parser";
}

abbrev hash : List ℕ
hash = 1 ∷ 2 ∷ []

abbrev no_retry : RetryInputs
no_retry = record { unavailable = none; registration = rejected ""; parse = raised 409 "busy" }

abbrev scan_at : ℕ → ℕ → Scan
scan_at now completed = record {
  present = true;
  inputs = poll_at now;
  outcome = finalized hash true;
  retry_inputs = no_retry;
  completed = completed;
}

-- A row that was left in parsing: the fifth write of the second scan was its last.
abbrev interrupted : List Scan
interrupted = scan_at 10 9 ∷ scan_at 40 5 ∷ []

abbrev left_parsing : Artifact
left_parsing = record (base "incoming/a.pcap" parsing) {
  final_path = some "pcaps/a.pcap";
  sha256 = some hash;
  size_bytes = some 100;
  validated_at = true;
  capture_id = some "cap-1";
  observed = some (record { signature = upload; observed_at = 10 });
}

is_left : scans interrupted none ≡ some left_parsing
unfolding scans scan scan_writes retry_writes upserts media_wlc_upsert_artifact
    media_wlc_process_incoming process_unless poll act process_ready finalize_to after_finalize
    promote promote_unless register execute parse_capture finalized_row already is_ingested
    decision_at plan_ingest_decision decide_elapsed
is_left = refl

scans-IsConsistent_example : IsConsistent left_parsing
scans-IsConsistent_example = scans-IsConsistent interrupted left_parsing is_left

parsing_is_stuck_example :
    scans (scan_at 60 9 ∷ scan_at 90 9 ∷ []) (some left_parsing) ≡ some left_parsing
parsing_is_stuck_example = parsing_is_stuck (scan_at 60 9 ∷ scan_at 90 9 ∷ []) left_parsing refl

abbrev pending : Artifact
pending = record left_parsing { ingest_state = retry_pending; retry_count = some 2 }

few_counted : count_of pending < 5
unfolding retry_count_of
few_counted = ground arith

conflicts_never_end_example :
    ((retry_times 7 no_retry pending).ingest_state ≡ retry_pending)
    × (count_of (retry_times 7 no_retry pending) ≡ count_of pending)
conflicts_never_end_example =
    conflicts_never_end 6 no_retry "busy" pending "cap-1" refl refl refl few_counted

abbrev polled : List Upsert
polled = (media_wlc_process_incoming (poll_at 10) (finalized hash true) none).writes

none_yet : already none ≡ none
unfolding already
none_yet = refl

process_answers_example :
    (state_of (upserts none polled)
      ≡ (media_wlc_process_incoming (poll_at 10) (finalized hash true) none).answer)
    × (observation (upserts none polled)
        ≡ store
            (decision_at 20 none (record { current = upload; now = 10 }))
            none
            (record { current = upload; now = 10 }))
process_answers_example =
    process_answers none (poll_at 10) upload (finalized hash true) none_yet refl
