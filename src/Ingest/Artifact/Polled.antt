-- ===== src/Ingest/Artifact/Polled.antt =====
-- The writes of media_wlc_process_incoming against the invariant of the rows.
use srhc_observability_claud.Prelude.{
  ◌≡◌, refl, ℕ, ◌≤◌, Bool, true, false, ◌||◌, Option, none, some, String, arith,
}
use srhc_observability_claud.Prelude.Text.{Text}
use srhc_observability_claud.Ingest.Finalize.Types.{Category, Outcome, finalized}
use srhc_observability_claud.Ingest.Stability.{
  Observed, decision_at, wait_new, wait_changed, wait_too_soon, ready, Signature, Decision,
}
use srhc_observability_claud.Ingest.Artifact.{
  validated, promoted, IngestState, Status, Artifact, Registration, Parse, parse_write, base,
  failed, complete, other, raised, returned, rejected, capture,
}
use srhc_observability_claud.Ingest.Artifact.Process.{
  observation, already, finalized_row, promote_unless, finalize_to, poll, process_unless, promote,
  after_finalize, process_ready, act, media_wlc_process_incoming, failed_state,
}
use srhc_observability_claud.Ingest.Artifact.Process.Register.{
  Inputs, execute, parse_capture, register,
}
use srhc_observability_claud.Ingest.Artifact.Retry.{retry_count_of, wlc_ingest_max_retries}
use srhc_observability_claud.Ingest.Artifact.Invariant.{
  implies, needs_final, needs_capture, has_reason, WritesOk, WriteOk,
}

or_true : (b : Bool) → (b || true) ≡ true
or_true b = ground arith

pub parse_write-WriteOk :
    (source capture_id : String) (count : Option ℕ) (status : Status) (error : Option String)
    → retry_count_of count ≤ wlc_ingest_max_retries
    → WriteOk true (
        parse_write
          (record (base source failed) { capture_id = some capture_id })
          count
          status
          error)
unfolding parse_write needs_final needs_capture has_reason retry_count_of
parse_write-WriteOk source capture_id count complete error h =
    (refl, refl, refl, ground arith, refl)
parse_write-WriteOk source capture_id count (other s) error h = (refl, refl, refl, h, refl)

parse_capture-WritesOk :
    (source final capture_id : String) (parse : Parse)
    → WritesOk true (parse_capture source final capture_id parse).writes
unfolding parse_capture parse_write needs_final needs_capture has_reason retry_count_of
parse_capture-WritesOk source final capture_id (raised code detail) =
    ((refl, refl, refl, ground arith, refl), ((refl, refl, refl, ground arith, refl), tt))
parse_capture-WritesOk source final capture_id (returned status error) = (
  (refl, refl, refl, ground arith, refl),
  (parse_write-WriteOk source capture_id none status error (ground arith), tt),
)

execute-WritesOk :
    (enabled : Bool) (source final capture_id : String) (parse : Parse)
    → WritesOk true (execute enabled source final capture_id parse).writes
unfolding execute needs_final needs_capture has_reason retry_count_of
execute-WritesOk true source final capture_id parse =
    parse_capture-WritesOk source final capture_id parse
execute-WritesOk false source final capture_id parse = ((refl, refl, refl, ground arith, refl), tt)

register-WritesOk :
    (i : Inputs) (final : String) (r : Registration) → WritesOk true (register i final r).writes
unfolding register needs_final needs_capture has_reason retry_count_of
register-WritesOk i final (rejected detail) = ((refl, refl, refl, ground arith, refl), tt)
register-WritesOk i final (capture c) = (
  (refl, refl, refl, ground arith, refl),
  execute-WritesOk i.execution_enabled i.incoming_pcap final c i.parse,
)

finalized_row-WriteOk :
    (has : Bool) (i : Inputs) (final : String) (sum : Text)
    → WriteOk has (finalized_row i final sum validated)
      × WriteOk has (finalized_row i final sum promoted)
unfolding finalized_row needs_final needs_capture has_reason retry_count_of
finalized_row-WriteOk has i final sum = (
  (or_true has, or_true has, refl, ground arith, refl),
  (or_true has, or_true has, refl, ground arith, refl),
)

promote_unless-WritesOk :
    (i : Inputs) (final : String) (sum : Text) (same : Option (String × Option String))
    → WritesOk true (promote_unless i final sum same).writes
unfolding promote_unless needs_final needs_capture has_reason retry_count_of
promote_unless-WritesOk i final sum (some (a, c)) = ((refl, refl, refl, ground arith, refl), tt)
promote_unless-WritesOk i final sum none =
    ((finalized_row-WriteOk true i final sum).1, register-WritesOk i final i.registration)

promote-WritesOk :
    (has : Bool) (i : Inputs) (final : String) (sum : Text)
    → WritesOk has (promote i final sum).writes
unfolding promote needs_final needs_capture has_reason retry_count_of
promote-WritesOk has i final sum =
    ((finalized_row-WriteOk has i final sum).0, promote_unless-WritesOk i final sum i.same_content)

failed_state-WriteOk :
    (has : Bool) (category : Category)
    → (implies (needs_final (failed_state category)) (has || false) ≡ true)
      × (implies (needs_capture (failed_state category)) false ≡ true)
      × (has_reason (failed_state category) (some category) ≡ true)
unfolding failed_state needs_final needs_capture has_reason
failed_state-WriteOk has category = ground arith

after_finalize-WritesOk :
    (has : Bool) (i : Inputs) (size : ℕ) (final : String) (outcome : Outcome)
    → WritesOk has (after_finalize i size final outcome).writes
unfolding after_finalize needs_final needs_capture has_reason retry_count_of
after_finalize-WritesOk has i size final (finalized sum removed) = promote-WritesOk has i final sum
after_finalize-WritesOk has i size final (Outcome.failed category) =
    let (f, c, r) = failed_state-WriteOk has category in ((refl, f, c, ground arith, r), tt)

finalize_to-WritesOk :
    (has : Bool) (i : Inputs) (size : ℕ) (outcome : Outcome) (final : Option String)
    → WritesOk has (finalize_to i size outcome final).writes
unfolding finalize_to needs_final needs_capture has_reason retry_count_of
finalize_to-WritesOk has i size outcome none = ((refl, refl, refl, ground arith, refl), tt)
finalize_to-WritesOk has i size outcome (some final) =
    after_finalize-WritesOk has i size final outcome

act-WritesOk :
    (has : Bool) (i : Inputs) (current : Signature) (outcome : Outcome) (d : Decision)
    → WritesOk has (act i current outcome d).writes
unfolding act process_ready needs_final needs_capture has_reason retry_count_of
act-WritesOk has i current outcome wait_new = ((refl, refl, refl, ground arith, refl), tt)
act-WritesOk has i current outcome wait_changed = ((refl, refl, refl, ground arith, refl), tt)
act-WritesOk has i current outcome wait_too_soon = ((refl, refl, refl, ground arith, refl), tt)
act-WritesOk has i current outcome ready = (
  (refl, refl, refl, ground arith, refl),
  finalize_to-WritesOk has i current.size_bytes outcome i.promoted_path,
)

poll-WritesOk :
    (has : Bool) (i : Inputs) (outcome : Outcome) (o : Option Observed) (s : Option Signature)
    → WritesOk has (poll i outcome o s).writes
unfolding poll
poll-WritesOk has i outcome o none = tt
poll-WritesOk has i outcome o (some current) =
    act-WritesOk has i current outcome
      (decision_at i.stability o (record { current = current; now = i.now }))

process_unless-WritesOk :
    (has : Bool) (i : Inputs) (outcome : Outcome) (o : Option Observed) (state : Option IngestState)
    → WritesOk has (process_unless i outcome o state).writes
unfolding process_unless
process_unless-WritesOk has i outcome o (some state) = tt
process_unless-WritesOk has i outcome o none = poll-WritesOk has i outcome o i.signature

pub process-WritesOk :
    (has : Bool) (i : Inputs) (outcome : Outcome) (row : Option Artifact)
    → WritesOk has (media_wlc_process_incoming i outcome row).writes
unfolding media_wlc_process_incoming
process-WritesOk has i outcome row =
    process_unless-WritesOk has i outcome (observation row) (already row)
