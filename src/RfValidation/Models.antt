-- ===== src/RfValidation/Models.antt =====
-- The data classes of tools/vocera_rf_validation/models.py. A datetime has a time zone: it is an
-- instant, in microseconds, and the offset from UTC that `isoformat` writes. The floating-point
-- measurements are integers, counts of a unit that is fine enough for the values that occur.
use srhc_observability_claud.Prelude.{
  ℕ, Bool, false, Option, none, some, List, ◌&&◌, leb, if◌then◌else◌,
}
use srhc_observability_claud.Prelude.Int.{ℤ}
use srhc_observability_claud.Prelude.Text.{Text, codes}

pub record Datetime : Type 0 where
  pub instant : ℤ
  pub utc_offset : ℤ

-- The labels of `match_quality`.
pub data MatchQuality : Type 0 where
  exact_1s close_5s within_window unmatched : MatchQuality

-- The labels of `manual_entry_status`.
pub data ManualEntryStatus : Type 0 where
  complete pending_manual_entry missing_vendor_offset : ManualEntryStatus

pub record BadgeScanCandidate : Type 0 where
  pub event_id : Text
  pub candidate_index : ℕ
  pub selected : Bool
  pub bssid : Text
  pub channel : Option ℕ
  pub band : Option Text
  pub rssi_dbm : Option ℤ
  pub noise_dbm : Option ℤ
  pub snr_db : Option ℤ
  pub snr_source : Option Text
  pub channel_utilization_percent : Option ℤ
  pub score : Option ℤ

pub record BadgeScanEvent : Type 0 where
  pub event_id : Text
  pub test_run_id : Text
  pub event_time : Datetime
  pub badge_mac : Option Text
  pub badge_model : Option Text
  pub ssid : Option Text
  pub connected_bssid : Option Text
  pub connected_channel : Option ℕ
  pub candidates : List BadgeScanCandidate

pub record BadgeRadioSignalSample : Type 0 where
  pub test_run_id : Text
  pub event_time : Datetime
  pub level_dbm : Option ℤ
  pub snr_db : Option ℤ
  pub channel : Option ℕ

pub record BadgeParseResult : Type 0 where
  pub test_run_id : Text
  pub events : List BadgeScanEvent
  pub radio_signal_samples : List BadgeRadioSignalSample

-- The texts of `raw_context` are what `str` gives of its values.
pub record EkahauSurveyPoint : Type 0 where
  pub survey_point_id : Text
  pub measured_at : Datetime
  pub floor : Option Text
  pub area : Option Text
  pub x_m : Option ℤ
  pub y_m : Option ℤ
  pub survey_id : Option Text
  pub survey_name : Option Text

pub record EkahauParseResult : Type 0 where
  pub survey_points : List EkahauSurveyPoint
  pub ap_name_by_bssid : List (Text × Text)

pub record ManualObservation : Type 0 where
  pub survey_point_id : Option Text
  pub measured_at : Datetime
  pub bssid : Text
  pub rssi_dbm : ℤ
  pub snr_db : Option ℤ
  pub band : Option Text

-- The values of `_badge_snr_fields`. Times between two instants are in microseconds.
pub record SnrFields : Type 0 where
  pub badge_noise_floor_dbm : Option ℤ
  pub badge_snr_db : Option ℤ
  pub badge_snr_source : Text
  pub badge_snr_time : Option Datetime
  pub badge_snr_time_delta : Option ℤ
  pub badge_radio_signal_level_dbm : Option ℤ

pub record CandidateTemplateRow : Type 0 where
  pub test_run_id : Text
  pub survey_point_id : Text
  pub survey_time : Datetime
  pub ekahau_survey_id : Option Text
  pub ekahau_survey_name : Option Text
  pub badge_event_id : Text
  pub badge_candidate_index : ℕ
  pub badge_time : Datetime
  pub time_delta : ℤ
  pub match_quality : MatchQuality
  pub badge_mac : Option Text
  pub badge_model : Option Text
  pub floor : Option Text
  pub area : Option Text
  pub x_m : Option ℤ
  pub y_m : Option ℤ
  pub ssid : Option Text
  pub bssid : Text
  pub ap_name : Option Text
  pub channel : Option ℕ
  pub band : Option Text
  pub badge_rssi_dbm : Option ℤ
  pub badge_cu_percent : Option ℤ
  pub badge_score : Option ℤ
  pub badge_selected : Bool
  pub snr_fields : SnrFields
  pub ekahau_rssi_dbm : Option ℤ
  pub ekahau_snr_db : Option ℤ

pub record CorrelatedMatch : Type 0 where
  pub test_run_id : Text
  pub survey_point_id : Text
  pub badge_event_id : Text
  pub badge_candidate_index : ℕ
  pub badge_time : Datetime
  pub ekahau_time : Datetime
  pub ekahau_survey_id : Option Text
  pub ekahau_survey_name : Option Text
  pub time_delta : ℤ
  pub badge_mac : Option Text
  pub badge_model : Option Text
  pub ssid : Option Text
  pub bssid : Text
  pub ap_name : Option Text
  pub channel : Option ℕ
  pub band : Option Text
  pub badge_rssi_dbm : Option ℤ
  pub snr_fields : SnrFields
  pub ekahau_rssi_dbm : Option ℤ
  pub ekahau_snr_db : Option ℤ
  pub vendor_offset_db : Option ℤ
  pub expected_badge_rssi_dbm : Option ℤ
  pub raw_delta_db : Option ℤ
  pub calibrated_delta_db : Option ℤ
  pub absolute_calibrated_delta_db : Option ℕ
  pub badge_cu_percent : Option ℤ
  pub badge_score : Option ℤ
  pub badge_selected : Bool
  pub floor : Option Text
  pub area : Option Text
  pub x_m : Option ℤ
  pub y_m : Option ℤ
  pub match_quality : MatchQuality
  pub manual_entry_status : ManualEntryStatus

-- `derive_band_from_channel` on a channel that is given.
unfoldable pub band_of_channel : ℕ → Bool → Option Text
band_of_channel channel is_6ghz =
    if is_6ghz
    then some (codes "6GHz")
    else if leb 1 channel && leb channel 14
    then some (codes "2.4GHz")
    else if leb 32 channel && leb channel 177
    then some (codes "5GHz")
    else none

-- `op_class is not None and 131 <= op_class <= 137`
unfoldable pub is_6ghz_class : Option ℕ → Bool
is_6ghz_class none = false
is_6ghz_class (some op_class) = leb 131 op_class && leb op_class 137

unfoldable pub derive_band_from_channel : Option ℕ → Option ℕ → Option Text
unfolding band_of_channel is_6ghz_class
derive_band_from_channel none op_class = none
derive_band_from_channel (some channel) op_class = band_of_channel channel (is_6ghz_class op_class)

unfoldable pub derive_band_from_frequency : Option ℕ → Option Text
derive_band_from_frequency none = none
derive_band_from_frequency (some frequency_mhz) =
    if leb 2400 frequency_mhz && leb frequency_mhz 2499
    then some (codes "2.4GHz")
    else if leb 4900 frequency_mhz && leb frequency_mhz 5924
    then some (codes "5GHz")
    else if leb 5925 frequency_mhz && leb frequency_mhz 7125
    then some (codes "6GHz")
    else none

-- `first if first is not None else second`
unfoldable pub if_none {ℓ} : {A : Type ℓ} → Option A → Option A → Option A
if_none none second = second
if_none (some a) second = some a
