-- ===== src/Session/Package.antt =====
-- The files of a session package that the commands read and write, and the helpers on them.
use text.Mathlib.Text.{◌==◌ as str_eq}
use srhc_observability_claud.Prelude.Text.{Text}
use srhc_observability_claud.Prelude.{
  ℕ, Bool, true, false, Option, none, some, List, [], ◌∷◌, ◌++◌, String, if◌then◌else◌,
}

-- `ATTEMPT_STATES`
pub data AttemptState : Type 0 where
  opened completed cancelled incomplete : AttemptState

-- `OUTCOME_RESULTS`
pub data OutcomeResult : Type 0 where
  heard missed partial choppy : OutcomeResult

-- `EVENT_KINDS`
pub data EventKind : Type 0 where
  broadcast_started alert_only session_end note : EventKind
  outcome : OutcomeResult → EventKind

-- `AUDIO_RESULTS`
pub data AudioResult : Type 0 where
  result : OutcomeResult → AudioResult
  unknown not_tested : AudioResult

-- Whether an alert or the audio was received: an outcome records a Boolean, and a marker the word
-- that was given, one of true, false and unknown.
pub data Received : Type 0 where
  answer : Bool → Received
  yes_word no_word unknown_word : Received

-- One entry of attempts/index.json; `none` stands for `null` and for a missing key.
pub record Attempt : Type 0 where
  pub attempt_id : String
  pub session_id : String
  pub attempt_state : Option AttemptState
  pub attempt_started_at : String
  pub attempt_ended_at : Option String
  pub audio_result : Option OutcomeResult
  pub alert_received : Option Bool
  pub audio_received : Option Bool
  pub operator : Option String
  pub resolved_group_ip : Option Text
  pub resolved_group_vlan : Option ℕ
  pub resolved_mgid : Option ℕ
  pub group_selection_source : Option String
  pub vlan_override_reason : Option Text
  pub active_group_selected_at : Option String
  pub notes : Option String

-- One entry of session-events.json and of attempts/attempt-markers.json.
pub record Event : Type 0 where
  pub event_id : String
  pub session_id : String
  pub attempt_id : Option String
  pub event_kind : EventKind
  pub event_time : String
  pub browser_event_time : Option String
  pub operator : String
  pub audio_result : Option AudioResult
  pub alert_received : Option Received
  pub audio_received : Option Received
  pub notes : String

-- The files that `command_resolve_group` writes, with what it puts into them: the arguments that
-- `render_resolved_active_group` prints into a command sheet, the pasted group summary, and the
-- group-selection note.
pub data FileWrite : Type 0 where
  sheet : (attempt_id : String) (configured_vlan : ℕ) (group_ip : Text) (group_vlan : ℕ) → FileWrite
  summary : (attempt_id : String) (text : Text) → FileWrite
  selection :
      (attempt_id : String) (group_ip : Text) (group_vlan : ℕ) (mgid : Option ℕ)
      (configured_vlan : ℕ) (selection_source : String) (override_reason : Option Text)
      (selected_row : Option Text) (selected_at operator : String)
      → FileWrite

-- session.json as far as the attempt commands read it, and the files that they write.
pub record Package : Type 0 where
  pub session_id : String
  pub configured_vocera_vlan : Option ℕ
  pub expected_vocera_vlan : Option ℕ
  pub attempts : List Attempt
  pub session_events : List Event
  pub attempt_markers : List Event
  pub writes : List FileWrite

-- The clock, `$USER`, and the ids that `uuid` and the clock give.
pub record Ambient : Type 0 where
  pub now : String
  pub user : Option String
  pub event_id : String
  pub fresh_attempt_id : String

-- `a or b` on texts
unfoldable pub or_text : Option String → String → String
or_text none fallback = fallback
or_text (some s) fallback = if str_eq s "" then fallback else s

-- `args.operator or os.environ.get("USER") or "unknown"`
unfoldable pub operator_of : Option String → Ambient → String
unfolding or_text
operator_of operator ambient = or_text operator (or_text ambient.user "unknown")

abbrev pub is_opened : Option AttemptState → Bool
is_opened (some opened) = true
is_opened _ = false

-- `open_attempt`
unfoldable pub open_attempt : List Attempt → Option Attempt
open_attempt [] = none
open_attempt (attempt ∷ attempts) =
    if is_opened attempt.attempt_state then some attempt else open_attempt attempts

-- `next((item for item in attempts if item.get("attempt_id") == attempt_id), None)`
unfoldable pub find_attempt : String → List Attempt → Option Attempt
find_attempt id [] = none
find_attempt id (attempt ∷ attempts) =
    if str_eq attempt.attempt_id id then some attempt else find_attempt id attempts

-- `attempt.update(…)` on the entry that `find_attempt` gives, which changes it in the list.
unfoldable pub update_found : String → (Attempt → Attempt) → List Attempt → List Attempt
update_found id f [] = []
update_found id f (attempt ∷ attempts) =
    if str_eq attempt.attempt_id id
    then f attempt ∷ attempts
    else attempt ∷ update_found id f attempts

-- `attempt.update(…)` on the entry that `open_attempt` gives.
unfoldable pub update_open : (Attempt → Attempt) → List Attempt → List Attempt
update_open f [] = []
update_open f (attempt ∷ attempts) =
    if is_opened attempt.attempt_state
    then f attempt ∷ attempts
    else attempt ∷ update_open f attempts

-- `append_event`: both timeline files get the event.
unfoldable pub append_event : Package → Event → Package
append_event p event = record p {
  session_events = p.session_events ++ event ∷ [];
  attempt_markers = p.attempt_markers ++ event ∷ [];
}
