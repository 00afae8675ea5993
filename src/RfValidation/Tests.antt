-- ===== src/RfValidation/Tests.antt =====
-- A badge with two scans and one radio sample, two survey points, and the theorems on them.
use srhc_observability_claud.Prelude.{
  ℕ, ◌≡◌, ◌≢◌, ◌↔◌, refl, true, length, none, some, List, [], ◌∷◌, map, ◌/◌,
}
use srhc_observability_claud.Prelude.Int.{ℤ, pos, negsuc, pos_part, ◌-ℤ◌}
use srhc_observability_claud.Prelude.Select.{All}
use srhc_observability_claud.Prelude.Text.{Text, codes}
use srhc_observability_claud.RfValidation.Models.{
  Datetime, BadgeScanCandidate, BadgeScanEvent, BadgeRadioSignalSample, BadgeParseResult,
  EkahauSurveyPoint, EkahauParseResult, ManualObservation, CandidateTemplateRow,
}
use srhc_observability_claud.RfValidation.Window.{Config}
use srhc_observability_claud.RfValidation.Template.{build_manual_entry_template, badge_snr_fields}
use srhc_observability_claud.RfValidation.Template.Refinement.{IsTemplate, build_template_refines}
use srhc_observability_claud.RfValidation.Template.Signal.{
  IsSource, signal_window, badge_snr_fields-IsSource,
}
use srhc_observability_claud.RfValidation.Correlate.{TemplateKey, correlate_template_rows}
use srhc_observability_claud.RfValidation.Correlate.Status.{
  IsConsistent, correlate_template_rows_consistent,
}
use srhc_observability_claud.RfValidation.Correlate.Complete.{
  match_id, row_id, correlate-build_manual_entry_template,
}
use srhc_observability_claud.RfValidation.Alignment.{
  summarize_match_alignment, no_comparable_points,
}
use srhc_observability_claud.RfValidation.Alignment.Reason.{no_comparable_points_unreachable}
use srhc_observability_claud.RfValidation.Alignment.Unmatched.{template_of_unmatched}

-- A calendar of days in UTC, in microseconds.
abbrev utc_date : Text → ℤ → ℕ
utc_date timezone t = pos_part t / 86400000000

abbrev same_text : Text → Text
same_text t = t

abbrev at : ℕ → Datetime
at n = record { instant = pos n; utc_offset = pos 0 }

abbrev candidate : BadgeScanCandidate
candidate = record {
  event_id = codes "e1";
  candidate_index = 0;
  selected = true;
  bssid = codes "ap";
  channel = some 36;
  band = none;
  rssi_dbm = some (negsuc 59);
  noise_dbm = none;
  snr_db = none;
  snr_source = none;
  channel_utilization_percent = none;
  score = none;
}

abbrev event_at : ℕ → List BadgeScanCandidate → BadgeScanEvent
event_at n candidates = record {
  event_id = codes "e1";
  test_run_id = codes "run";
  event_time = at n;
  badge_mac = none;
  badge_model = none;
  ssid = none;
  connected_bssid = none;
  connected_channel = none;
  candidates = candidates;
}

abbrev sample : BadgeRadioSignalSample
sample = record {
  test_run_id = codes "run";
  event_time = at 2500000;
  level_dbm = some (negsuc 61);
  snr_db = some (pos 30);
  channel = some 36;
}

abbrev badge : BadgeParseResult
badge = record {
  test_run_id = codes "run";
  events = event_at 9000000 [] ∷ event_at 2000000 (candidate ∷ []) ∷ [];
  radio_signal_samples = sample ∷ [];
}

abbrev point_at : ℕ → EkahauSurveyPoint
point_at n = record {
  survey_point_id = codes "p";
  measured_at = at n;
  floor = none;
  area = none;
  x_m = none;
  y_m = none;
  survey_id = none;
  survey_name = none;
}

abbrev survey : EkahauParseResult
survey = record { survey_points = point_at 2400000 ∷ point_at 5000000 ∷ []; ap_name_by_bssid = [] }

abbrev far_survey : EkahauParseResult
far_survey = record { survey_points = point_at 5000000 ∷ []; ap_name_by_bssid = [] }

abbrev config : Config
config = record {
  timezone = none;
  default_match_window = none;
  require_same_measurement_date = none;
  associated_sample_match_window = none;
  by_model = [];
  by_band = (codes "5GHz", some (negsuc 2)) ∷ [];
}

abbrev manual : ℕ → ManualObservation
manual n = record {
  survey_point_id = some (codes "p");
  measured_at = at 2400000;
  bssid = codes "ap";
  rssi_dbm = negsuc n;
  snr_db = none;
  band = none;
}

abbrev observations : List ManualObservation
observations = manual 50 ∷ manual 54 ∷ []

abbrev rows : List CandidateTemplateRow
rows = build_manual_entry_template utc_date badge survey config

rows-length : length rows ≡ 1
unfolding build_manual_entry_template ◌-ℤ◌
rows-length = refl

build_template_refines_example :
    (build_manual_entry_template utc_date badge survey config ≡ rows)
    ↔ IsTemplate utc_date badge survey config survey.survey_points rows
build_template_refines_example = build_template_refines utc_date badge survey config rows

snr_value :
    (badge_snr_fields (event_at 2000000 (candidate ∷ [])) candidate badge config).badge_snr_db
    ≡ some (pos 30)
unfolding badge_snr_fields ◌-ℤ◌
snr_value = refl

badge_snr_fields-IsSource_example :
    IsSource badge.radio_signal_samples
      (at 2000000)
      (signal_window config)
      (badge_snr_fields (event_at 2000000 (candidate ∷ [])) candidate badge config)
badge_snr_fields-IsSource_example =
    badge_snr_fields-IsSource (event_at 2000000 (candidate ∷ [])) candidate badge config (pos 30)
      refl refl snr_value

correlate_template_rows_consistent_example :
    All IsConsistent (correlate_template_rows utc_date same_text config rows observations)
correlate_template_rows_consistent_example =
    correlate_template_rows_consistent utc_date same_text config rows observations

correlate-build_manual_entry_template_example :
    map match_id (correlate_template_rows utc_date same_text config rows observations)
    ≡ map row_id rows
correlate-build_manual_entry_template_example =
    correlate-build_manual_entry_template utc_date same_text badge survey config observations

abbrev key : TemplateKey
key = record { survey_point_id = some (codes "p"); bssid = codes "ap"; time = at 2400000 }

no_comparable_points_unreachable_example :
    (summarize_match_alignment utc_date config badge survey).unmatched_reason
    ≢ some no_comparable_points
no_comparable_points_unreachable_example =
    no_comparable_points_unreachable utc_date config badge survey

template_of_unmatched_example : build_manual_entry_template utc_date badge far_survey config ≡ []
unfolding summarize_match_alignment ◌-ℤ◌
template_of_unmatched_example = template_of_unmatched utc_date config badge far_survey refl

one_matched :
    (summarize_match_alignment utc_date config badge survey).matched_survey_point_count ≡ 1
unfolding summarize_match_alignment ◌-ℤ◌
one_matched = refl
