-- ===== src/RfValidation/Executor/Run.antt =====
-- `execute_selected_run` of tools/vocera_rf_validation/run_executor.py: its checks and the execution of
-- its commands, each checked by `_run_command`.
use srhc_observability_claud.Prelude.{
  ℕ, suc, Bool, true, false, not, ◌&&◌, Option, none, some, List, [], ◌∷◌, ◌++◌, length,
  if◌then◌else◌, ◌==◌,
}
use srhc_observability_claud.Prelude.Ratio.{Ratio}
use srhc_observability_claud.Prelude.Int.{ℤ, pos_part, neg_part}
use srhc_observability_claud.Prelude.Text.{Text, codes}
use srhc_observability_claud.RfValidation.Window.{Config}
use srhc_observability_claud.RfValidation.Executor.{
  Command, badge_log, ekahau_json, manual_csv, ipad_client_detail, config_not_found,
  unsafe_test_run_id, command_failed, Checked, raised, returned, FileRow, RunRow, System,
  build_effective_run_config, is_safe_run_id,
}
use srhc_observability_claud.RfValidation.Executor.Sources.{
  Readings, badge, ipad, Sources, select_sources,
}
use srhc_observability_claud.RfValidation.Executor.Pipeline.{file_in, pipeline}

-- The commands that were run, in their order, and what came of the run.
pub record Execution (A : Type 0) : Type 0 where
  pub commands : List Command
  pub outcome : Checked A

abbrev pub is_zero : ℤ → Bool
is_zero z = pos_part z == 0 && neg_part z == 0

-- `_run_command`, one after the other.
unfoldable pub execute_commands :
    {A : Type 0} → System → A → List Command → List Command → Execution A
execute_commands s result ran [] = record { commands = ran; outcome = returned result }
execute_commands s result ran (command ∷ commands) =
    let now = ran ++ command ∷ [] in
    let rest = execute_commands s result now commands in
    if is_zero (s.exit_code now)
    then rest
    else record { commands = now; outcome = raised (command_failed command) }

-- `RunExecutionResult`
pub record RunExecutionResult : Type 0 where
  pub test_run_id : Text
  pub output_dir : Text
  pub badge_json : Text
  pub ekahau_json : Text
  pub template_csv : Text
  pub matches_json : Text
  pub matches_csv : Text
  pub import_sql : Text
  pub execution_log : Text
  pub run_config : Text
  pub match_window_seconds_used : Option Ratio
  pub source_summary : List (Text × ℕ)

unfoldable pub summary_of : Sources → List (Text × ℕ)
summary_of sources =
    (badge_log, badge_count sources.readings)
    ∷ (ipad_client_detail, input_count sources.readings)
    ∷ (ekahau_json, 1)
    ∷ (manual_csv, if has_manual sources.manual then 1 else 0)
    ∷ []
  where
    badge_count : Readings → ℕ
    badge_count (badge log) = 1
    badge_count (ipad input inputs) = 0

    input_count : Readings → ℕ
    input_count (badge log) = 0
    input_count (ipad input inputs) = suc (length inputs)

    has_manual : Option Text → Bool
    has_manual none = false
    has_manual (some path) = true

-- The configuration counts microseconds.
unfoldable pub in_seconds : Option ℤ → Option Ratio
in_seconds none = none
in_seconds (some n) = some (record { num = n; den = 1000000 })

unfoldable pub result_of : System → Text → Text → Config → Sources → RunExecutionResult
unfolding file_in summary_of in_seconds
result_of s test_run_id output_dir config sources =
    let stored = λ (name : Text). s.stored_path (file_in output_dir name) in
    record {
      test_run_id = test_run_id;
      output_dir = s.stored_path output_dir;
      badge_json = stored (codes "badge.json");
      ekahau_json = stored (codes "ekahau.json");
      template_csv = stored (codes "manual-template.csv");
      matches_json = stored (codes "matches.json");
      matches_csv = stored (codes "matches.csv");
      import_sql = stored (codes "import.sql");
      execution_log = stored (codes "execution.log");
      run_config = stored (codes "run-config.json");
      match_window_seconds_used = in_seconds config.default_match_window;
      source_summary = summary_of sources;
    }

-- The arguments of `execute_selected_run`, with what `load_config` reads from the configuration.
pub record Request : Type 0 where
  pub test_run_id : Text
  pub run : RunRow
  pub files : List FileRow
  pub config_path : Text
  pub base_config : Config
  pub postgres_url : Text
  pub psql_bin : Text
  pub scope : Text

unfoldable pub output_dir_of : System → Request → Text
unfolding file_in
output_dir_of s r = file_in (s.output_root r.scope) r.test_run_id

-- The checks before the output directory is made.
unfoldable pub check_request : System → Request → Checked Sources
unfolding is_safe_run_id select_sources
check_request s r =
    if not (is_safe_run_id r.test_run_id)
    then raised unsafe_test_run_id
    else if not (s.is_file (s.repo_path r.config_path))
    then raised config_not_found
    else select_sources s r.files

unfoldable pub execute_sources :
    System → Request → Sources → Checked Config → Execution RunExecutionResult
unfolding result_of output_dir_of pipeline execute_commands
execute_sources s r sources (raised e) = record { commands = []; outcome = raised e }
execute_sources s r sources (returned config) =
    let output_dir = output_dir_of s r in
    execute_commands s (result_of s r.test_run_id output_dir config sources) []
      (pipeline s r.test_run_id r.run sources output_dir r.psql_bin r.postgres_url)

unfoldable pub execute_checked : System → Request → Checked Sources → Execution RunExecutionResult
unfolding execute_sources build_effective_run_config
execute_checked s r (raised e) = record { commands = []; outcome = raised e }
execute_checked s r (returned sources) =
    execute_sources s r sources (build_effective_run_config s r.base_config r.run)

unfoldable pub execute_selected_run : System → Request → Execution RunExecutionResult
unfolding execute_checked check_request
execute_selected_run s r = execute_checked s r (check_request s r)
