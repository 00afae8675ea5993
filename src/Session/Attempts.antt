-- ===== src/Session/Attempts.antt =====
-- The attempt commands start-attempt, outcome and mark; resolve-group is in Resolve. Each returns
-- the exit code with the package that it leaves; an error message printed to stderr is left out.
pub mod Resolve
pub mod Open
pub mod Trace
pub mod Policy
use text.Mathlib.Text.{◌==◌ as str_eq}
use srhc_observability_claud.Prelude.{
  ℕ, zero, suc, Bool, true, false, Option, none, some, List, [], ◌∷◌, ◌++◌, String, if◌then◌else◌,
}
use srhc_observability_claud.Prelude.Text.{Text, strip, is_empty}
use srhc_observability_claud.Multicast.Vlan.{selected, refused, reason_of, enforce_vlan_selection}
use srhc_observability_claud.Session.Package.{
  answer, AudioResult, result, Received, EventKind, opened, completed, OutcomeResult, heard, missed,
  broadcast_started, outcome, Attempt, Event, FileWrite, sheet, summary, selection, Package,
  Ambient, or_text, operator_of, open_attempt, find_attempt, update_found, update_open,
  append_event,
}
use srhc_observability_claud.Session.Summary.{select_summary_row}

-- The exit code, and what the package holds afterwards.
pub record Exit : Type 0 where
  pub code : ℕ
  pub state : Package

pub record StartArgs : Type 0 where
  pub attempt_id : Option String
  pub event_time : Option String
  pub operator : Option String
  pub notes : Option String

unfoldable pub new_attempt : StartArgs → Ambient → Package → Attempt
unfolding or_text operator_of
new_attempt args ambient p = record {
  attempt_id = or_text args.attempt_id ambient.fresh_attempt_id;
  session_id = p.session_id;
  attempt_state = some opened;
  attempt_started_at = or_text args.event_time ambient.now;
  attempt_ended_at = none;
  audio_result = none;
  alert_received = none;
  audio_received = none;
  operator = some (operator_of args.operator ambient);
  resolved_group_ip = none;
  resolved_group_vlan = none;
  resolved_mgid = none;
  group_selection_source = none;
  vlan_override_reason = none;
  active_group_selected_at = none;
  notes = some (or_text args.notes "");
}

unfoldable pub started_event : StartArgs → Ambient → Package → Event
unfolding or_text operator_of
started_event args ambient p = record {
  event_id = ambient.event_id;
  session_id = p.session_id;
  attempt_id = some (or_text args.attempt_id ambient.fresh_attempt_id);
  event_kind = broadcast_started;
  event_time = or_text args.event_time ambient.now;
  browser_event_time = none;
  operator = operator_of args.operator ambient;
  audio_result = none;
  alert_received = none;
  audio_received = none;
  notes = or_text args.notes "";
}

unfoldable pub command_start_attempt : StartArgs → Ambient → Package → Exit
unfolding append_event new_attempt started_event
command_start_attempt args ambient p = elim (open_attempt p.attempts) [
  | some existing ↦ record { code = 2; state = p }
  | none ↦ record {
    code = 0;
    state =
        append_event (record p { attempts = p.attempts ++ new_attempt args ambient p ∷ [] })
          (started_event args ambient p);
  }
]

pub record OutcomeArgs : Type 0 where
  pub audio_result : OutcomeResult
  pub attempt_id : Option String
  pub event_time : Option String
  pub operator : Option String
  pub alert_received : Option Bool
  pub audio_received : Option Bool
  pub notes : Option String

-- The value that is recorded where the operator gave none.
abbrev default_to : Bool → Option Bool → Option Bool
default_to b none = some b
default_to b (some given) = some given

unfoldable pub alert_of : OutcomeResult → Option Bool → Option Bool
alert_of heard alert = default_to true alert
alert_of _ alert = alert

unfoldable pub audio_of : OutcomeResult → Option Bool → Option Bool
audio_of heard audio = default_to true audio
audio_of missed audio = default_to false audio
audio_of _ audio = audio

abbrev notes_after : Option String → Option String → Option String
notes_after none notes = notes
notes_after (some given) notes = some given

-- `attempt.update(…)` and the notes that follow it.
unfoldable pub close_attempt : OutcomeArgs → Ambient → Attempt → Attempt
unfolding or_text operator_of alert_of audio_of
close_attempt args ambient attempt = record attempt {
  attempt_state = some completed;
  attempt_ended_at = some (or_text args.event_time ambient.now);
  audio_result = some args.audio_result;
  alert_received = alert_of args.audio_result args.alert_received;
  audio_received = audio_of args.audio_result args.audio_received;
  operator = some (operator_of args.operator ambient);
  notes = notes_after args.notes attempt.notes;
}

-- The entry that a bare outcome with no open attempt adds, before it is closed.
unfoldable pub bare_attempt : OutcomeArgs → Ambient → Package → Attempt
unfolding or_text
bare_attempt args ambient p = record {
  attempt_id = ambient.fresh_attempt_id;
  session_id = p.session_id;
  attempt_state = none;
  attempt_started_at = or_text args.event_time ambient.now;
  attempt_ended_at = none;
  audio_result = none;
  alert_received = none;
  audio_received = none;
  operator = none;
  resolved_group_ip = none;
  resolved_group_vlan = none;
  resolved_mgid = none;
  group_selection_source = none;
  vlan_override_reason = none;
  active_group_selected_at = none;
  notes = none;
}

abbrev answered : Option Bool → Option Received
answered none = none
answered (some value) = some (answer value)

unfoldable pub outcome_event : OutcomeArgs → Ambient → Package → String → Event
unfolding or_text operator_of alert_of audio_of
outcome_event args ambient p id = record {
  event_id = ambient.event_id;
  session_id = p.session_id;
  attempt_id = some id;
  event_kind = outcome args.audio_result;
  event_time = or_text args.event_time ambient.now;
  browser_event_time = none;
  operator = operator_of args.operator ambient;
  audio_result = some (result args.audio_result);
  alert_received = answered (alert_of args.audio_result args.alert_received);
  audio_received = answered (audio_of args.audio_result args.audio_received);
  notes = or_text args.notes "";
}

-- `if args.attempt_id:` holds for a text that is not empty.
unfoldable pub given_id : Option String → Option String
given_id none = none
given_id (some id) = if str_eq id "" then none else some id

unfoldable pub record_outcome : OutcomeArgs → Ambient → Package → List Attempt → String → Exit
unfolding append_event outcome_event
record_outcome args ambient p attempts id = record {
  code = 0;
  state = append_event (record p { attempts = attempts }) (outcome_event args ambient p id);
}

unfoldable pub outcome_for : Option String → OutcomeArgs → Ambient → Package → Exit
unfolding record_outcome close_attempt bare_attempt
outcome_for (some id) args ambient p = elim (find_attempt id p.attempts) [
  | none ↦ record { code = 2; state = p }
  | some attempt ↦
      record_outcome args ambient p (update_found id (close_attempt args ambient) p.attempts)
        attempt.attempt_id
]
outcome_for none args ambient p = elim (open_attempt p.attempts) [
  | none ↦
      record_outcome args ambient p
        (p.attempts ++ close_attempt args ambient (bare_attempt args ambient p) ∷ [])
        ambient.fresh_attempt_id
  | some attempt ↦
      record_outcome args ambient p (update_open (close_attempt args ambient) p.attempts)
        attempt.attempt_id
]

unfoldable pub command_outcome : OutcomeArgs → Ambient → Package → Exit
unfolding outcome_for given_id
command_outcome args ambient p = outcome_for (given_id args.attempt_id) args ambient p

pub record MarkArgs : Type 0 where
  pub event_kind : EventKind
  pub attempt_id : Option String
  pub event_time : Option String
  pub browser_event_time : Option String
  pub operator : Option String
  pub audio_result : Option AudioResult
  pub alert_received : Option Received
  pub audio_received : Option Received
  pub notes : Option String

unfoldable pub mark_event : MarkArgs → Ambient → Package → Event
unfolding or_text operator_of
mark_event args ambient p = record {
  event_id = ambient.event_id;
  session_id = p.session_id;
  attempt_id = args.attempt_id;
  event_kind = args.event_kind;
  event_time = or_text args.event_time ambient.now;
  browser_event_time = args.browser_event_time;
  operator = operator_of args.operator ambient;
  audio_result = args.audio_result;
  alert_received = args.alert_received;
  audio_received = args.audio_received;
  notes = or_text args.notes "";
}

unfoldable pub command_mark : MarkArgs → Ambient → Package → Exit
unfolding append_event mark_event
command_mark args ambient p = record {
  code = 0;
  state = append_event p (mark_event args ambient p);
}
