-- ===== src/RfValidation/Executor/Tests.antt =====
-- A run with a badge log, on a system whose database refuses the import, and the theorem on it.
use srhc_observability_claud.Prelude.{◌≡◌, refl, true, none, some, List, [], ◌∷◌, length}
use srhc_observability_claud.Prelude.Int.{ℤ, pos}
use srhc_observability_claud.Prelude.Text.{codes}
use srhc_observability_claud.RfValidation.Window.{Config}
use srhc_observability_claud.RfValidation.Executor.{
  Command, badge_log, ekahau_json, whole, System, is_safe_run_id,
}
use srhc_observability_claud.RfValidation.Executor.Run.{Request, execute_selected_run}
use srhc_observability_claud.RfValidation.Executor.Outcome.{IsRun, execute_selected_run-IsRun}

-- The sixth command fails.
abbrev exit_codes : List Command → ℤ
exit_codes (a ∷ b ∷ c ∷ d ∷ e ∷ f ∷ commands) = pos 3
exit_codes commands = pos 0

abbrev system : System
system = record {
  repo_path = λ path. path;
  is_file = λ path. true;
  truncate = λ text. whole (pos 5);
  stored_path = λ path. path;
  output_root = λ scope. codes "/runs";
  executable = codes "python";
  exit_code = exit_codes;
}

abbrev config : Config
config = record {
  timezone = none;
  default_match_window = none;
  require_same_measurement_date = none;
  associated_sample_match_window = none;
  by_model = [];
  by_band = [];
}

abbrev request : Request
request = record {
  test_run_id = codes "run-1";
  run = record {
    default_match_window_seconds = some (codes "5");
    badge_mac = none;
    badge_model = some (codes " B3 ");
  };
  files =
      record { source_role = some badge_log; file_path = some (codes "badge.log") }
      ∷ record { source_role = some ekahau_json; file_path = some (codes "survey.json") }
      ∷ [];
  config_path = codes "config.json";
  base_config = config;
  postgres_url = codes "url";
  psql_bin = codes "psql";
  scope = codes "vocera_badge";
}

ran_six : length (execute_selected_run system request).commands ≡ 6
unfolding execute_selected_run
ran_six = refl

-- The two dots of a parent directory and a newline at the end pass the test.
dots_pass : is_safe_run_id (codes "..") ≡ true
unfolding is_safe_run_id
dots_pass = refl

newline_passes : is_safe_run_id (114 ∷ 10 ∷ []) ≡ true
unfolding is_safe_run_id
newline_passes = refl

execute_selected_run-IsRun_example : IsRun system request (execute_selected_run system request)
execute_selected_run-IsRun_example = execute_selected_run-IsRun system request
