-- ===== src/RfValidation/Executor/Sources.antt =====
-- The sources of a run that `execute_selected_run` of
-- tools/vocera_rf_validation/run_executor.py takes from the selected files.
use srhc_observability_claud.Prelude.{Bool, true, false, Option, none, some, List, [], ◌∷◌}
use srhc_observability_claud.Prelude.Text.{Text}
use srhc_observability_claud.RfValidation.Executor.{
  badge_log, ekahau_json, manual_csv, ipad_client_detail, both_sources, no_source, select_one,
  Checked, raised, returned, and_then, FileRow, System, selected_files, one,
}

-- The readings of a run: one badge log, or the client details of an iPad.
pub data Readings : Type 0 where
  badge : Text → Readings
  ipad : Text → List Text → Readings

pub record Sources : Type 0 where
  pub readings : Readings
  pub ekahau : Text
  pub manual : Option Text

unfoldable pub readings_of : Option Text → List Text → Checked Readings
readings_of (some path) [] = returned (badge path)
readings_of (some path) (input ∷ inputs) = raised both_sources
readings_of none [] = raised no_source
readings_of none (input ∷ inputs) = returned (ipad input inputs)

-- With `required=True` there is a path.
unfoldable pub required_path : Text → Option Text → Checked Text
required_path role none = raised (select_one role)
required_path role (some path) = returned path

-- `_one(_selected_files(files, role, root_path), role)`
unfoldable pub selected_one : System → List FileRow → Text → Bool → Checked (Option Text)
unfolding and_then selected_files one
selected_one s files role required = and_then (selected_files s role files) (one role required)

unfoldable pub select_sources : System → List FileRow → Checked Sources
unfolding and_then selected_one required_path readings_of
select_sources s files = and_then (selected_one s files badge_log false) (λ log.
    and_then (selected_files s ipad_client_detail files) (λ inputs.
      and_then (selected_one s files ekahau_json true) (λ survey.
        and_then (required_path ekahau_json survey) (λ ekahau.
          and_then (selected_one s files manual_csv false) (λ manual.
            and_then (readings_of log inputs) (λ readings.
              returned (record { readings = readings; ekahau = ekahau; manual = manual })))))))
