-- ===== src/Ingest/Artifact/Answers.antt =====
-- What a poll answers and which observation it leaves.
use srhc_observability_claud.Prelude.{
  [], ◌∙◌, ◌≡◌, refl, ℕ, Bool, true, false, Option, none, some, String,
}
use srhc_observability_claud.Prelude.Text.{Text}
use srhc_observability_claud.Ingest.Finalize.Types.{Outcome, finalized}
use srhc_observability_claud.Ingest.Stability.{
  store, decision_at, wait_new, wait_changed, wait_too_soon, ready, Signature, Decision,
}
use srhc_observability_claud.Ingest.Artifact.{
  registered, validating, validating, ◌∷◌, coalesce, upserts, parse_state,
  media_wlc_upsert_artifact, Upsert, Run, List, validated, promoted, IngestState, Artifact,
  Registration, Parse, parse_write, complete, other, raised, returned, rejected, capture,
}
use srhc_observability_claud.Ingest.Artifact.Process.{
  finalize_to, after_finalize, promote_unless, finalized_row, observation, already, observation,
  already, finalized_row, promote_unless, finalize_to, poll, process_unless, promote,
  after_finalize, process_ready, act, media_wlc_process_incoming,
}
use srhc_observability_claud.Ingest.Artifact.Process.Register.{
  register, execute, Inputs, execute, parse_capture, register,
}

abbrev last_from : Option IngestState → List Upsert → Option IngestState
last_from state [] = state
last_from state (u ∷ rest) = last_from (some u.ingest_state) rest

-- The writes leave the observation alone.
abbrev Quiet : List Upsert → Type 0
Quiet [] = Unit {0}
Quiet (u ∷ rest) = (u.observed ≡ none) × Quiet rest

-- The answer is the state of the last write.
abbrev Agrees : Option IngestState → Run → Type 0
Agrees state run = Quiet run.writes × (last_from state run.writes ≡ run.answer)

parse_capture-Agrees :
    (o : Option IngestState) (source final c : String) (parse : Parse)
    → Agrees o (parse_capture source final c parse)
unfolding parse_capture parse_write parse_state
parse_capture-Agrees o source final c (raised code detail) = ((refl, (refl, tt)), refl)
parse_capture-Agrees o source final c (returned complete error) = ((refl, (refl, tt)), refl)
parse_capture-Agrees o source final c (returned (other s) error) = ((refl, (refl, tt)), refl)

execute-Agrees :
    (o : Option IngestState) (enabled : Bool) (source final c : String) (parse : Parse)
    → Agrees o (execute enabled source final c parse)
unfolding execute
execute-Agrees o true source final c parse = parse_capture-Agrees o source final c parse
execute-Agrees o false source final c parse = ((refl, tt), refl)

register-Agrees :
    (o : Option IngestState) (i : Inputs) (final : String) (r : Registration)
    → Agrees o (register i final r)
unfolding register
register-Agrees o i final (rejected detail) = ((refl, tt), refl)
register-Agrees o i final (capture c) =
    let (q, l) =
      execute-Agrees (some registered) i.execution_enabled i.incoming_pcap final c i.parse in
    ((refl, q), l)

promote_unless-Agrees :
    (o : Option IngestState) (i : Inputs) (final : String) (sum : Text)
    (same : Option (String × Option String))
    → Agrees o (promote_unless i final sum same)
unfolding promote_unless finalized_row
promote_unless-Agrees o i final sum (some (a, c)) = ((refl, tt), refl)
promote_unless-Agrees o i final sum none =
    let (q, l) = register-Agrees (some promoted) i final i.registration in ((refl, q), l)

after_finalize-Agrees :
    (o : Option IngestState) (i : Inputs) (size : ℕ) (final : String) (outcome : Outcome)
    → Agrees o (after_finalize i size final outcome)
unfolding after_finalize promote finalized_row
after_finalize-Agrees o i size final (Outcome.failed category) = ((refl, tt), refl)
after_finalize-Agrees o i size final (finalized sum removed) =
    let (q, l) = promote_unless-Agrees (some validated) i final sum i.same_content in ((refl, q), l)

finalize_to-Agrees :
    (o : Option IngestState) (i : Inputs) (size : ℕ) (outcome : Outcome) (final : Option String)
    → Agrees o (finalize_to i size outcome final)
unfolding finalize_to
finalize_to-Agrees o i size outcome none = ((refl, tt), refl)
finalize_to-Agrees o i size outcome (some final) = after_finalize-Agrees o i size final outcome

abbrev pub state_of : Option Artifact → Option IngestState
state_of none = none
state_of (some a) = some a.ingest_state

state_of-upserts :
    (row : Option Artifact) (writes : List Upsert)
    → state_of (upserts row writes) ≡ last_from (state_of row) writes
unfolding upserts media_wlc_upsert_artifact
state_of-upserts row [] = refl
state_of-upserts none (u ∷ rest) = state_of-upserts (some (media_wlc_upsert_artifact none u)) rest
state_of-upserts (some a) (u ∷ rest) =
    state_of-upserts (some (media_wlc_upsert_artifact (some a) u)) rest

coalesce-none : {A : Type 0} → (o : Option A) → o ≡ coalesce o none
coalesce-none none = refl
coalesce-none (some x) = refl

observation-upsert :
    (row : Option Artifact) (u : Upsert)
    → observation (some (media_wlc_upsert_artifact row u)) ≡ coalesce u.observed (observation row)
unfolding media_wlc_upsert_artifact
observation-upsert none u = coalesce-none u.observed
observation-upsert (some a) u = refl

observation-upserts :
    (row : Option Artifact) (writes : List Upsert)
    → Quiet writes
    → observation (upserts row writes) ≡ observation row
unfolding upserts
observation-upserts row [] q = refl
observation-upserts row (u ∷ rest) (h, q) =
    observation-upserts (some (media_wlc_upsert_artifact row u)) rest q
    ∙ observation-upsert row u
    ∙ simp h refl

-- One write.
answers_one :
    (row : Option Artifact) (u : Upsert)
    → (state_of (upserts row (u ∷ [])) ≡ some u.ingest_state)
      × (observation (upserts row (u ∷ [])) ≡ coalesce u.observed (observation row))
unfolding upserts
answers_one row u = (state_of-upserts row (u ∷ []), observation-upsert row u)

act-answers :
    (row : Option Artifact) (i : Inputs) (current : Signature) (outcome : Outcome) (d : Decision)
    → (state_of (upserts row (act i current outcome d).writes) ≡ (act i current outcome d).answer)
      × (observation (upserts row (act i current outcome d).writes)
          ≡ store d (observation row) (record { current = current; now = i.now }))
unfolding act store process_ready
act-answers row i current outcome wait_new = answers_one row _
act-answers row i current outcome wait_changed = answers_one row _
act-answers row i current outcome wait_too_soon = answers_one row _
act-answers row i current outcome ready =
    let (q, l) =
      finalize_to-Agrees (some validating) i current.size_bytes outcome i.promoted_path in
    let run = process_ready i current.size_bytes outcome in
    (state_of-upserts row run.writes ∙ l, observation-upserts row run.writes (refl, q))

-- A poll that is not of an upload already taken in and whose file can be read leaves the row in
-- the state that it answers, if it is not interrupted. The observation in the row is then the one
-- that the decision on stability tells to store.
pub process_answers :
    (row : Option Artifact) (i : Inputs) (current : Signature) (outcome : Outcome)
    → already row ≡ none
    → i.signature ≡ some current
    → (state_of (upserts row (media_wlc_process_incoming i outcome row).writes)
        ≡ (media_wlc_process_incoming i outcome row).answer)
      × (observation (upserts row (media_wlc_process_incoming i outcome row).writes)
          ≡ store
              (decision_at i.stability
                (observation row)
                (record { current = current; now = i.now }))
              (observation row)
              (record { current = current; now = i.now }))
unfolding media_wlc_process_incoming process_unless poll
process_answers row i current outcome h k =
    simp (h, k)
      (act-answers row i current outcome
        (decision_at i.stability (observation row) (record { current = current; now = i.now })))
