-- ===== src/Ingest/Artifact/Process/Register.antt =====
-- The registration and the parse of a capture, in `media_wlc_process_incoming` of
-- tools/study_web/main.py.
use srhc_observability_claud.Prelude.{ℕ, Bool, true, false, Option, none, some, String, [], ◌∷◌}
use srhc_observability_claud.Ingest.Stability.{Signature}
use srhc_observability_claud.Ingest.Finalize.Types.{capture_registration_failed, parser_failed}
use srhc_observability_claud.Ingest.Artifact.{
  Upsert, base, Run, Registration, Parse, parse_write, parse_state, failed, registered, imported,
  parsing, execution_disabled, parse_failed, rejected, capture, raised, returned,
}

-- What a poll reads from outside: the file, the clock, the destination, the other rows with the
-- same hash, the registration, the parser and the settings.
pub record Inputs : Type 0 where
  pub incoming_pcap : String
  pub signature : Option Signature
  pub now : ℕ
  pub stability : ℕ
  pub promoted_path : Option String
  pub failure_message : String
  pub final_size : ℕ
  pub visibility : Option String
  pub same_content : Option (String × Option String)
  pub registration : Registration
  pub execution_enabled : Bool
  pub parse : Parse

-- After the registration.
unfoldable pub parse_capture : String → String → String → Parse → Run
unfolding parse_write parse_state
parse_capture source final capture_id (raised code detail) =
    let u : Upsert = record (base source failed) { capture_id = some capture_id } in
    record {
      writes =
          record u { ingest_state = parsing; final_path = some final }
          ∷ record u {
            parser_status = some parse_failed;
            error_message = some detail;
            failure_category = some parser_failed;
          }
          ∷ [];
      answer = some failed;
    }
parse_capture source final capture_id (returned status error) =
    let u : Upsert = record (base source failed) { capture_id = some capture_id } in
    record {
      writes =
          record u { ingest_state = parsing; final_path = some final }
          ∷ parse_write u none status error
          ∷ [];
      answer = some (parse_state status);
    }

abbrev pub prepend : Upsert → Run → Run
prepend u run = record { writes = u ∷ run.writes; answer = run.answer }

-- `media_execution_enabled()`
unfoldable pub execute : Bool → String → String → String → Parse → Run
unfolding parse_capture
execute true source final capture_id parse = parse_capture source final capture_id parse
execute false source final capture_id parse = record {
  writes =
      record (base source imported) {
        final_path = some final;
        capture_id = some capture_id;
        parser_status = some execution_disabled;
      }
      ∷ [];
  answer = some imported;
}

unfoldable pub register : Inputs → String → Registration → Run
unfolding execute
register i final (rejected detail) = record {
  writes =
      record (base i.incoming_pcap failed) {
        final_path = some final;
        error_message = some detail;
        failure_category = some capture_registration_failed;
      }
      ∷ [];
  answer = some failed;
}
register i final (capture capture_id) =
    prepend
      (record (base i.incoming_pcap registered) {
        final_path = some final;
        capture_id = some capture_id;
        visibility_class = i.visibility;
      })
      (execute i.execution_enabled i.incoming_pcap final capture_id i.parse)
