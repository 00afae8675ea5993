-- ===== src/Session/Tests.antt =====
-- The session theorems at concrete packages.
use srhc_observability_claud.Prelude.{
  ◌+◌, ◌≤◌, ◌≡◌, refl, none, some, List, [], ◌∷◌, ◌++◌, String, length, arith, Option,
}
use srhc_observability_claud.Prelude.Text.{codes}
use srhc_observability_claud.Session.Package.{
  note, not_tested, unknown_word, update_open, Attempt, Event, Package, Ambient, OutcomeResult,
  completed, heard, missed, open_attempt, find_attempt,
}
use srhc_observability_claud.Session.Attempts.{
  command_mark, MarkArgs, StartArgs, OutcomeArgs, command_start_attempt, command_outcome,
  new_attempt, given_id,
}
use srhc_observability_claud.Session.Attempts.Resolve.{ResolveArgs, command_resolve_group}
use srhc_observability_claud.Session.Attempts.Open.{count_open, command_outcome_closes}
use srhc_observability_claud.Session.Attempts.Trace.{
  mark, run_command, Command, start_attempt, record_outcome, resolve_group, run_commands,
  run_commands-Follows,
}
use srhc_observability_claud.Session.Attempts.Policy.{
  ResolveResult, command_resolve_group_policy, outcome_of_reused_id,
}

abbrev ambient : Ambient
ambient = record {
  now = "2026-06-24T15:12:00+00:00";
  user = some "ops";
  event_id = "evt_1";
  fresh_attempt_id = "s1-attempt-1";
}

abbrev empty_package : Package
empty_package = record {
  session_id = "s1";
  configured_vocera_vlan = some 684;
  expected_vocera_vlan = none;
  attempts = [];
  session_events = [];
  attempt_markers = [];
  writes = [];
}

abbrev start : Option String → StartArgs
start id = record { attempt_id = id; event_time = none; operator = none; notes = none }

abbrev bare_outcome : OutcomeResult → Option String → OutcomeArgs
bare_outcome result id = record {
  audio_result = result;
  attempt_id = id;
  event_time = none;
  operator = none;
  alert_received = none;
  audio_received = none;
  notes = none;
}

abbrev resolve : ResolveArgs
resolve = record {
  group_ip = codes "230.230.0.4";
  group_vlan = 690;
  mgid = some 7;
  attempt_id = none;
  selection_source = some "operator_override";
  override_reason = some (codes " live group on 690 ");
  summary_text = codes "230.230.0.4 690";
  event_time = none;
  operator = none;
}

abbrev one_open : Package
one_open = (command_start_attempt (start none) ambient empty_package).state

abbrev one_closed : Package
one_closed = (command_outcome (bare_outcome missed none) ambient one_open).state

abbrev remark : MarkArgs
remark = record {
  event_kind = note;
  attempt_id = none;
  event_time = none;
  browser_event_time = some "2026-06-24T15:12:01+00:00";
  operator = none;
  audio_result = some not_tested;
  alert_received = some unknown_word;
  audio_received = none;
  notes = some "moved";
}

abbrev history : List Command
history =
    start_attempt (start none) ambient
    ∷ start_attempt (start (some "second")) ambient
    ∷ resolve_group resolve ambient
    ∷ record_outcome (bare_outcome missed none) ambient
    ∷ record_outcome (bare_outcome heard none) ambient
    ∷ mark remark ambient
    ∷ []

-- The second start is refused, and the last outcome adds an entry of its own.
history_test :
    (count_open (run_commands history empty_package).attempts ≡ 0)
    × (length (run_commands history empty_package).attempts ≡ 2)
    × (length (run_commands history empty_package).session_events ≡ 4)
    × (length (run_commands history empty_package).writes ≡ 3)
unfolding run_commands run_command command_start_attempt command_outcome command_resolve_group
    command_mark open_attempt update_open
history_test = (refl, refl, refl, refl)

run_commands-Follows_example :
    (count_open (run_commands history empty_package).attempts ≤ 1)
    × ((events : List Event) × ((run_commands history empty_package).session_events
          ≡ empty_package.session_events ++ events)
        × ((run_commands history empty_package).attempt_markers
            ≡ empty_package.attempt_markers ++ events))
run_commands-Follows_example = run_commands-Follows history empty_package (omega arith)

command_outcome_closes_example :
    let exit = command_outcome (bare_outcome missed none) ambient empty_package in
    (exit.code ≡ 0)
    × (count_open exit.state.attempts ≡ 0)
    × (length exit.state.attempts + count_open empty_package.attempts
        ≡ length empty_package.attempts + 1)
unfolding given_id
command_outcome_closes_example =
    command_outcome_closes (bare_outcome missed none) ambient empty_package refl (omega arith)

command_resolve_group_policy_example :
    ResolveResult resolve one_open (command_resolve_group resolve ambient one_open)
command_resolve_group_policy_example = command_resolve_group_policy resolve ambient one_open

abbrev old : Attempt
old = record (new_attempt (start (some "a1")) ambient empty_package) {
  attempt_state = some completed;
}

abbrev reused : Package
reused = record empty_package { attempts = old ∷ [] }

outcome_of_reused_id_example :
    let started = command_start_attempt (start (some "a1")) ambient reused in
    let exit = command_outcome (bare_outcome heard (some "a1")) ambient started.state in
    (started.code ≡ 0)
    × (exit.code ≡ 0)
    × (count_open exit.state.attempts ≡ 1)
    × (open_attempt exit.state.attempts ≡ some (new_attempt (start (some "a1")) ambient reused))
    × ((older : Attempt) × (find_attempt "a1" exit.state.attempts ≡ some older)
        × (older.attempt_started_at ≡ old.attempt_started_at)
        × (older.attempt_state ≡ some completed)
        × (older.audio_result ≡ some heard))
unfolding open_attempt find_attempt new_attempt
outcome_of_reused_id_example =
    outcome_of_reused_id (start (some "a1")) (bare_outcome heard (some "a1")) ambient ambient reused
      "a1" old refl refl refl refl refl
