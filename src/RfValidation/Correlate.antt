-- ===== src/RfValidation/Correlate.antt =====
-- `correlate_template_rows`, `_manual_by_template_key` and `resolve_vendor_offset` of
-- tools/vocera_rf_validation/correlate.py.
pub mod Status
pub mod Manual
pub mod Complete
use srhc_observability_claud.Prelude.{
  ℕ, Bool, true, false, not, Option, none, some, List, [], ◌∷◌, ◌==◌, ◌&&◌, if◌then◌else◌,
}
use srhc_observability_claud.Prelude.Int.{ℤ, ◌+ℤ◌, pos_part, neg_part}
use srhc_observability_claud.Prelude.Text.{text_or, Text, text_eq}
use srhc_observability_claud.RfValidation.Models.{
  Datetime, ManualObservation, CandidateTemplateRow, CorrelatedMatch, ManualEntryStatus, complete,
  pending_manual_entry, missing_vendor_offset, if_none,
}
use srhc_observability_claud.RfValidation.Window.{
  Config, ModelOffsets, table, other, abs, within_match_window, same_measurement_date,
}
use srhc_observability_claud.RfValidation.Template.{get, is_some, difference_of}

-- The truth of a configured value.
unfoldable pub is_true : ModelOffsets → Bool
is_true (table []) = false
is_true (table (e ∷ entries)) = true
is_true (other truth) = truth

-- `first or second`
unfoldable pub or_offsets : Option ModelOffsets → Option ModelOffsets → Option ModelOffsets
unfolding is_true
or_offsets none second = second
or_offsets (some first) second = if is_true first then some first else second

-- The offset of a table that has the band, or nothing where the code goes on to `by_band`.
unfoldable pub model_offset : Option ModelOffsets → Text → Option (Option ℤ)
unfolding get
model_offset (some (table offsets)) band = get offsets band
model_offset _ band = none

-- An entry that is null gives no offset.
unfoldable pub join : Option (Option ℤ) → Option ℤ
join none = none
join (some value) = value

unfoldable pub offset_or_band : Option (Option ℤ) → Config → Text → Option ℤ
unfolding join get
offset_or_band (some value) config band = value
offset_or_band none config band = join (get config.by_band band)

-- `str.upper` has the whole case table of Unicode.
module _ (upper : Text → Text) where
  unfoldable pub offset_of_model : Config → Option Text → Text → Option (Option ℤ)
  unfolding or_offsets model_offset get
  offset_of_model config none band = none
  offset_of_model config (some []) band = none
  offset_of_model config (some (c ∷ s)) band =
      model_offset (or_offsets (get config.by_model (c ∷ s)) (get config.by_model (upper (c ∷ s))))
        band

  unfoldable pub resolve_vendor_offset : Config → Option Text → Option Text → Option ℤ
  unfolding offset_of_model offset_or_band
  resolve_vendor_offset config badge_model none = none
  resolve_vendor_offset config badge_model (some []) = none
  resolve_vendor_offset config badge_model (some (c ∷ s)) =
      offset_or_band (offset_of_model config badge_model (c ∷ s)) config (c ∷ s)

pub record TemplateKey : Type 0 where
  pub survey_point_id : Option Text
  pub bssid : Text
  pub time : Datetime

abbrev pub int_eq : ℤ → ℤ → Bool
int_eq a b = pos_part a == pos_part b && neg_part a == neg_part b

abbrev pub option_text_eq : Option Text → Option Text → Bool
option_text_eq none none = true
option_text_eq (some a) (some b) = text_eq a b
option_text_eq _ _ = false

-- Two times have the same `isoformat` exactly if the instant and the offset are the same.
unfoldable pub template_key_eq : TemplateKey → TemplateKey → Bool
template_key_eq a b =
    option_text_eq a.survey_point_id b.survey_point_id
    && text_eq a.bssid b.bssid
    && int_eq a.time.instant b.time.instant
    && int_eq a.time.utc_offset b.time.utc_offset

unfoldable pub template_key_of : ManualObservation → TemplateKey
template_key_of observation = record {
  survey_point_id = observation.survey_point_id;
  bssid = observation.bssid;
  time = observation.measured_at;
}

-- The dict, with the last writes in front: the first entry of a key is the one that counts.
abbrev pub ManualIndex : Type 0
ManualIndex = List (TemplateKey × ManualObservation)

unfoldable pub index_loop : ManualIndex → List ManualObservation → ManualIndex
unfolding template_key_of
index_loop indexed [] = indexed
index_loop indexed (observation ∷ observations) =
    index_loop ((template_key_of observation, observation) ∷ indexed) observations

unfoldable pub manual_by_template_key : List ManualObservation → ManualIndex
unfolding index_loop
manual_by_template_key observations = index_loop [] observations

unfoldable pub get_manual : ManualIndex → TemplateKey → Option ManualObservation
unfolding template_key_eq
get_manual [] key = none
get_manual (e ∷ indexed) key =
    let rest = get_manual indexed key in if template_key_eq e.0 key then some e.1 else rest

unfoldable pub manual_rssi : Option ManualObservation → Option ℤ
manual_rssi none = none
manual_rssi (some manual) = some manual.rssi_dbm

unfoldable pub manual_snr : Option ManualObservation → Option ℤ
manual_snr none = none
manual_snr (some manual) = manual.snr_db

unfoldable pub manual_band : Option ManualObservation → Option Text
manual_band none = none
manual_band (some manual) = manual.band

-- `rssi + offset`, when both are there.
unfoldable pub sum_of : Option ℤ → Option ℤ → Option ℤ
sum_of (some a) (some b) = some (a +ℤ b)
sum_of _ _ = none

unfoldable pub abs_of : Option ℤ → Option ℕ
unfolding abs
abs_of none = none
abs_of (some a) = some (abs a)

unfoldable pub status_of : Option ℤ → Option ℤ → ManualEntryStatus
status_of ekahau_rssi vendor_offset =
    let status = if is_some ekahau_rssi then complete else pending_manual_entry in
    if is_some ekahau_rssi && not (is_some vendor_offset) then missing_vendor_offset else status

-- The match of a row, given its Ekahau signal, its band and its vendor offset.
unfoldable pub match_of :
    CandidateTemplateRow → Option ℤ → Option ℤ → Option Text → Option ℤ → CorrelatedMatch
unfolding sum_of difference_of abs_of status_of
match_of row ekahau_rssi ekahau_snr band vendor_offset =
    let expected = sum_of ekahau_rssi vendor_offset in
    let calibrated_delta = difference_of row.badge_rssi_dbm expected in
    record {
      test_run_id = row.test_run_id;
      survey_point_id = row.survey_point_id;
      badge_event_id = row.badge_event_id;
      badge_candidate_index = row.badge_candidate_index;
      badge_time = row.badge_time;
      ekahau_time = row.survey_time;
      ekahau_survey_id = row.ekahau_survey_id;
      ekahau_survey_name = row.ekahau_survey_name;
      time_delta = row.time_delta;
      badge_mac = row.badge_mac;
      badge_model = row.badge_model;
      ssid = row.ssid;
      bssid = row.bssid;
      ap_name = row.ap_name;
      channel = row.channel;
      band = band;
      badge_rssi_dbm = row.badge_rssi_dbm;
      snr_fields = row.snr_fields;
      ekahau_rssi_dbm = ekahau_rssi;
      ekahau_snr_db = ekahau_snr;
      vendor_offset_db = vendor_offset;
      expected_badge_rssi_dbm = expected;
      raw_delta_db = difference_of row.badge_rssi_dbm ekahau_rssi;
      calibrated_delta_db = calibrated_delta;
      absolute_calibrated_delta_db = abs_of calibrated_delta;
      badge_cu_percent = row.badge_cu_percent;
      badge_score = row.badge_score;
      badge_selected = row.badge_selected;
      floor = row.floor;
      area = row.area;
      x_m = row.x_m;
      y_m = row.y_m;
      match_quality = row.match_quality;
      manual_entry_status = status_of ekahau_rssi vendor_offset;
    }

module _ (local_date : Text → ℤ → ℕ) (upper : Text → Text) (config : Config) where
  unfoldable pub correlate_row : Option ManualObservation → CandidateTemplateRow → CorrelatedMatch
  unfolding if_none manual_rssi manual_snr manual_band text_or resolve_vendor_offset match_of
  correlate_row manual row =
      let band = text_or row.band (manual_band manual) in
      match_of row (if_none row.ekahau_rssi_dbm (manual_rssi manual))
        (if_none row.ekahau_snr_db (manual_snr manual)) band
        (resolve_vendor_offset upper config row.badge_model band)

  -- The two guards of the loop.
  unfoldable pub is_comparable : CandidateTemplateRow → Bool
  unfolding same_measurement_date within_match_window
  is_comparable row =
      same_measurement_date local_date row.badge_time row.survey_time config
      && within_match_window row.time_delta config

  unfoldable pub row_key : CandidateTemplateRow → TemplateKey
  row_key row = record {
    survey_point_id = some row.survey_point_id;
    bssid = row.bssid;
    time = row.survey_time;
  }

  unfoldable pub correlate_loop : ManualIndex → List CandidateTemplateRow → List CorrelatedMatch
  unfolding is_comparable get_manual row_key correlate_row
  correlate_loop manual_index [] = []
  correlate_loop manual_index (row ∷ rows) =
      let matches = correlate_loop manual_index rows in
      if is_comparable row
      then correlate_row (get_manual manual_index (row_key row)) row ∷ matches
      else matches

  unfoldable pub correlate_template_rows :
      List CandidateTemplateRow → List ManualObservation → List CorrelatedMatch
  unfolding correlate_loop manual_by_template_key
  correlate_template_rows rows manual_observations =
      correlate_loop (manual_by_template_key manual_observations) rows
