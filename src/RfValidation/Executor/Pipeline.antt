-- ===== src/RfValidation/Executor/Pipeline.antt =====
-- The commands of `execute_selected_run` of tools/vocera_rf_validation/run_executor.py.
use srhc_observability_claud.Prelude.{Option, none, some, List, [], ◌∷◌, ◌++◌, if◌then◌else◌}
use srhc_observability_claud.Prelude.Text.{Text, codes, is_empty}
use srhc_observability_claud.RfValidation.Executor.{Command, RunRow, System, value_of}
use srhc_observability_claud.RfValidation.Executor.Sources.{Readings, badge, ipad, Sources}

-- `output_dir / name`
unfoldable pub file_in : Text → Text → Text
file_in output_dir name = output_dir ++ codes "/" ++ name

abbrev word : Text → Command
word text = text ∷ []

-- `_cli_base`
unfoldable pub cli_base : System → Text → Command
cli_base s config_path =
    s.executable
    ∷ codes "-m"
    ∷ codes "tools.vocera_rf_validation.cli"
    ∷ codes "--config"
    ∷ config_path
    ∷ codes "--no-archive"
    ∷ []

-- An option that is given if its value is not empty.
unfoldable pub option_if : Text → Text → Command
option_if name value = if is_empty value then [] else name ∷ value ∷ []

unfoldable pub input_options : List Text → Command
input_options [] = []
input_options (path ∷ paths) = codes "--input" ∷ path ∷ input_options paths

unfoldable pub model_or_ipad : Text → Text
model_or_ipad model = if is_empty model then codes "iPad" else model

unfoldable pub parse_command : Command → Text → Text → RunRow → Readings → Command
unfolding value_of option_if input_options model_or_ipad
parse_command base test_run_id badge_json run (badge log) =
    base
    ++ (codes "parse-badge"
        ∷ codes "--test-run-id"
        ∷ test_run_id
        ∷ codes "--input"
        ∷ log
        ∷ codes "--json-out"
        ∷ badge_json
        ∷ [])
    ++ option_if (codes "--badge-mac") (value_of run.badge_mac)
    ++ option_if (codes "--badge-model") (value_of run.badge_model)
parse_command base test_run_id badge_json run (ipad input inputs) =
    base
    ++ (codes "parse-ipad-client-detail"
        ∷ codes "--test-run-id"
        ∷ test_run_id
        ∷ codes "--json-out"
        ∷ badge_json
        ∷ [])
    ++ input_options (input ∷ inputs)
    ++ option_if (codes "--client-mac") (value_of run.badge_mac)
    ++ (codes "--client-model" ∷ model_or_ipad (value_of run.badge_model) ∷ [])

unfoldable pub manual_option : Option Text → Command
manual_option none = []
manual_option (some path) = codes "--manual-csv" ∷ path ∷ []

-- The commands of a run, in their order.
unfoldable pub pipeline : System → Text → RunRow → Sources → Text → Text → Text → List Command
unfolding file_in cli_base parse_command manual_option
pipeline s test_run_id run sources output_dir psql_bin postgres_url =
    let base = cli_base s (file_in output_dir (codes "run-config.json")) in
    let badge_json = file_in output_dir (codes "badge.json") in
    let ekahau_json = file_in output_dir (codes "ekahau.json") in
    let template_csv = file_in output_dir (codes "manual-template.csv") in
    let matches_json = file_in output_dir (codes "matches.json") in
    let matches_csv = file_in output_dir (codes "matches.csv") in
    let import_sql = file_in output_dir (codes "import.sql") in
    parse_command base test_run_id badge_json run sources.readings
    ∷ (base
        ++ (codes "parse-ekahau-json"
            ∷ codes "--test-run-id"
            ∷ test_run_id
            ∷ codes "--input"
            ∷ sources.ekahau
            ∷ codes "--json-out"
            ∷ ekahau_json
            ∷ []))
    ∷ (base
        ++ (codes "manual-template"
            ∷ codes "--badge-json"
            ∷ badge_json
            ∷ codes "--ekahau-json"
            ∷ ekahau_json
            ∷ codes "--csv-out"
            ∷ template_csv
            ∷ []))
    ∷ (base
        ++ (codes "correlate"
            ∷ codes "--template-csv"
            ∷ template_csv
            ∷ codes "--json-out"
            ∷ matches_json
            ∷ codes "--csv-out"
            ∷ matches_csv
            ∷ manual_option sources.manual))
    ∷ (base
        ++ (codes "emit-sql"
            ∷ codes "--badge-json"
            ∷ badge_json
            ∷ codes "--ekahau-json"
            ∷ ekahau_json
            ∷ codes "--template-csv"
            ∷ template_csv
            ∷ codes "--matches-json"
            ∷ matches_json
            ∷ codes "--sql-out"
            ∷ import_sql
            ∷ []))
    ∷ (psql_bin
        ∷ postgres_url
        ∷ codes "-X"
        ∷ codes "-v"
        ∷ codes "ON_ERROR_STOP=1"
        ∷ codes "-f"
        ∷ import_sql
        ∷ [])
    ∷ []
