-- ===== src/RfValidation/Template.antt =====
-- `build_manual_entry_template`, `_badge_snr_fields` and `_nearest_radio_signal_sample` of
-- tools/vocera_rf_validation/correlate.py.
pub mod Refinement
pub mod Signal
use srhc_observability_claud.Prelude.{
  ℕ, zero, suc, Bool, true, false, not, Option, none, some, List, [], ◌∷◌, ◌++◌, map, ◌==◌, ◌||◌,
  if◌then◌else◌,
}
use srhc_observability_claud.Prelude.Int.{ℤ, pos, ◌-ℤ◌}
use srhc_observability_claud.Prelude.Select.{filter, first_least}
use srhc_observability_claud.Prelude.Text.{text_or, Text, codes, text_eq}
use srhc_observability_claud.RfValidation.Models.{
  Datetime, BadgeScanCandidate, BadgeScanEvent, BadgeRadioSignalSample, BadgeParseResult,
  EkahauSurveyPoint, EkahauParseResult, SnrFields, CandidateTemplateRow, unmatched,
  derive_band_from_channel, if_none,
}
use srhc_observability_claud.RfValidation.Window.{
  Config, is_at_most, get_default, within_match_window, match_quality, same_measurement_date,
  difference, distance,
}

-- `dict.get` on a table of texts.
unfoldable pub get {ℓ} : {A : Type ℓ} → List (Text × A) → Text → Option A
get [] key = none
get (e ∷ entries) key = let rest = get entries key in if text_eq e.0 key then some e.1 else rest

-- The channels are there and the same.
unfoldable pub same_channel : Option ℕ → Option ℕ → Bool
same_channel (some a) (some b) = a == b
same_channel _ _ = false

abbrev pub is_some {ℓ} : {A : Type ℓ} → Option A → Bool
is_some none = false
is_some (some a) = true

-- The tests of the loop of `_nearest_radio_signal_sample`.
unfoldable pub is_usable : Datetime → Option ℕ → ℤ → Bool → BadgeRadioSignalSample → Bool
unfolding is_at_most distance same_channel
is_usable target_time channel max_distance require_same_channel sample =
    if not (is_some sample.snr_db)
    then false
    else if not (is_at_most (distance sample.event_time target_time) max_distance)
    then false
    else if require_same_channel
    then same_channel sample.channel channel
    else true

unfoldable pub nearest_radio_signal_sample :
    List BadgeRadioSignalSample → Datetime → Option ℕ → ℤ → Bool → Option BadgeRadioSignalSample
unfolding filter first_least is_usable distance
nearest_radio_signal_sample samples target_time channel max_distance require_same_channel =
    first_least (λ sample. distance sample.event_time target_time)
      (filter (is_usable target_time channel max_distance require_same_channel) samples)

-- Python's `first or second` on numbers that may be missing: 0 is false too.
unfoldable pub channel_or : Option ℕ → Option ℕ → Option ℕ
channel_or none other = other
channel_or (some zero) other = other
channel_or (some (suc n)) other = some (suc n)

-- `rssi - snr`, when both are there.
unfoldable pub difference_of : Option ℤ → Option ℤ → Option ℤ
difference_of (some a) (some b) = some (a -ℤ b)
difference_of _ _ = none

-- `candidate.selected or (connected_bssid is not None and candidate.bssid == connected_bssid)`
unfoldable pub is_associated : BadgeScanEvent → BadgeScanCandidate → Bool
is_associated event candidate = candidate.selected || (elim event.connected_bssid [
  | none ↦ false
  | some connected_bssid ↦ text_eq candidate.bssid connected_bssid
])

-- The fields from a sample of the associated link, or from none.
unfoldable pub fields_of :
    BadgeScanEvent → BadgeScanCandidate → Text → Option BadgeRadioSignalSample → SnrFields
unfolding is_associated if_none difference_of difference
fields_of event candidate source none = record {
  badge_noise_floor_dbm = none;
  badge_snr_db = none;
  badge_snr_source =
      if is_associated event candidate
      then codes "unavailable_no_associated_radio_signal_sample"
      else codes "unavailable_not_associated_ap_no_radio_signal_sample";
  badge_snr_time = none;
  badge_snr_time_delta = none;
  badge_radio_signal_level_dbm = none;
}
fields_of event candidate source (some sample) = record {
  badge_noise_floor_dbm = difference_of (if_none sample.level_dbm candidate.rssi_dbm) sample.snr_db;
  badge_snr_db = sample.snr_db;
  badge_snr_source = source;
  badge_snr_time = some sample.event_time;
  badge_snr_time_delta = some (difference sample.event_time event.event_time);
  badge_radio_signal_level_dbm = sample.level_dbm;
}

-- The sample of the same channel, with its label, or the second choice.
unfoldable pub choose_sample :
    Option BadgeRadioSignalSample
    → Option BadgeRadioSignalSample
    → Text × Option BadgeRadioSignalSample
choose_sample (some sample) nearest = (codes "associated_radio_signal_level_minus_snr", some sample)
choose_sample none nearest = (codes "associated_radio_signal_event_level", nearest)

-- The candidate has no measurement of its own.
unfoldable pub fields_of_samples :
    BadgeScanEvent → BadgeScanCandidate → List BadgeRadioSignalSample → Config → SnrFields
unfolding get_default channel_or nearest_radio_signal_sample choose_sample fields_of
fields_of_samples event candidate samples config =
    let window = get_default config.associated_sample_match_window (pos 300000000) in
    let channel = channel_or candidate.channel event.connected_channel in
    let (source, sample) =
      choose_sample (nearest_radio_signal_sample samples event.event_time channel window true)
        (nearest_radio_signal_sample samples event.event_time none window false) in
    fields_of event candidate source sample

-- `candidate.snr_source or "scan_candidate_report"`
unfoldable pub report_source : Option Text → Text
unfolding text_or get_default
report_source snr_source = get_default (text_or snr_source none) (codes "scan_candidate_report")

unfoldable pub badge_snr_fields :
    BadgeScanEvent → BadgeScanCandidate → BadgeParseResult → Config → SnrFields
unfolding report_source fields_of_samples
badge_snr_fields event candidate badge_result config =
    if is_some candidate.snr_db || is_some candidate.noise_dbm
    then record {
      badge_noise_floor_dbm = candidate.noise_dbm;
      badge_snr_db = candidate.snr_db;
      badge_snr_source = report_source candidate.snr_source;
      badge_snr_time = some event.event_time;
      badge_snr_time_delta = some (pos 0);
      badge_radio_signal_level_dbm = candidate.rssi_dbm;
    }
    else fields_of_samples event candidate badge_result.radio_signal_samples config

unfoldable pub template_row :
    BadgeParseResult
    → EkahauParseResult
    → Config
    → EkahauSurveyPoint
    → BadgeScanEvent
    → BadgeScanCandidate
    → CandidateTemplateRow
unfolding difference get_default match_quality text_or derive_band_from_channel badge_snr_fields get
template_row badge_result ekahau_result config point nearest candidate =
    let delta = difference nearest.event_time point.measured_at in
    record {
      test_run_id = badge_result.test_run_id;
      survey_point_id = point.survey_point_id;
      survey_time = point.measured_at;
      ekahau_survey_id = text_or point.survey_id none;
      ekahau_survey_name = text_or point.survey_name none;
      badge_event_id = nearest.event_id;
      badge_candidate_index = candidate.candidate_index;
      badge_time = nearest.event_time;
      time_delta = delta;
      match_quality = get_default (match_quality delta config) unmatched;
      badge_mac = nearest.badge_mac;
      badge_model = nearest.badge_model;
      floor = point.floor;
      area = point.area;
      x_m = point.x_m;
      y_m = point.y_m;
      ssid = nearest.ssid;
      bssid = candidate.bssid;
      ap_name = get ekahau_result.ap_name_by_bssid candidate.bssid;
      channel = candidate.channel;
      band = text_or candidate.band (derive_band_from_channel candidate.channel none);
      badge_rssi_dbm = candidate.rssi_dbm;
      badge_cu_percent = candidate.channel_utilization_percent;
      badge_score = candidate.score;
      badge_selected = candidate.selected;
      snr_fields = badge_snr_fields nearest candidate badge_result config;
      ekahau_rssi_dbm = none;
      ekahau_snr_db = none;
    }

module _ (local_date : Text → ℤ → ℕ) (badge_result : BadgeParseResult)
    (ekahau_result : EkahauParseResult) (config : Config) where
  -- The nearest comparable event.
  unfoldable pub nearest_event : EkahauSurveyPoint → Option BadgeScanEvent
  unfolding filter first_least same_measurement_date distance
  nearest_event point =
      first_least (λ event. distance event.event_time point.measured_at)
        (filter
          (λ event. same_measurement_date local_date event.event_time point.measured_at config)
          badge_result.events)

  -- The rows of a point, given its nearest event.
  unfoldable pub rows_of : EkahauSurveyPoint → Option BadgeScanEvent → List CandidateTemplateRow
  unfolding within_match_window difference template_row
  rows_of point none = []
  rows_of point (some nearest) =
      if not (within_match_window (difference nearest.event_time point.measured_at) config)
      then []
      else map (template_row badge_result ekahau_result config point nearest) nearest.candidates

  unfoldable pub template_loop : List EkahauSurveyPoint → List CandidateTemplateRow
  unfolding nearest_event rows_of
  template_loop [] = []
  template_loop (point ∷ points) = rows_of point (nearest_event point) ++ template_loop points

  unfoldable pub build_manual_entry_template : List CandidateTemplateRow
  unfolding template_loop
  build_manual_entry_template = elim badge_result.events [
    | [] ↦ []
    | _ ∷ _ ↦ template_loop ekahau_result.survey_points
  ]
