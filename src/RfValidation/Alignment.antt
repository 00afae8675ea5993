-- ===== src/RfValidation/Alignment.antt =====
-- `summarize_match_alignment` of tools/vocera_rf_validation/correlate.py, with `_time_range`,
-- `_measurement_date_counts` and `_nearest_delta_any_date`. Dates are numbers of days, which sort as
-- their texts do.
pub mod Deltas
pub mod Reason
pub mod Unmatched
use srhc_observability_claud.Prelude.{
  ℕ, zero, suc, ◌*◌, ◌/◌, ◌+◌, Bool, true, false, not, Option, none, some, List, [], ◌∷◌, ◌++◌, map,
  ◌==◌, ltb, leb, ◌&&◌, ◌||◌, if◌then◌else◌, length, get_elem?,
}
use srhc_observability_claud.Prelude.Int.{ℤ, pos, ltb_ℤ}
use srhc_observability_claud.Prelude.Select.{filter, first_least}
use srhc_observability_claud.Prelude.Sort.{sorted}
use srhc_observability_claud.Prelude.Text.{Text}
use srhc_observability_claud.RfValidation.Models.{Datetime, BadgeParseResult, EkahauParseResult}
use srhc_observability_claud.RfValidation.Window.{
  Config, is_at_most, match_window, require_same_date, date_of, same_measurement_date, distance,
}

pub data UnmatchedReason : Type 0 where
  no_badge_events no_ekahau_points no_same_date_overlap outside_match_window : UnmatchedReason
  no_comparable_points : UnmatchedReason

pub record MatchAlignment : Type 0 where
  pub badge_event_count : ℕ
  pub ekahau_survey_point_count : ℕ
  pub configured_match_window : ℤ
  pub matched_survey_point_count : ℕ
  pub unmatched_reason : Option UnmatchedReason
  pub badge_time_range : Option (Datetime × Datetime)
  pub ekahau_time_range : Option (Datetime × Datetime)
  pub badge_measurement_dates : List (ℕ × ℕ)
  pub ekahau_measurement_dates : List (ℕ × ℕ)
  pub same_measurement_dates : List ℕ
  pub nearest_delta_min : Option ℕ
  pub nearest_delta_p50 : Option ℕ
  pub nearest_delta_p90 : Option ℕ
  pub nearest_delta_any_date : Option ℕ

unfoldable pub last_of : Datetime → List Datetime → Datetime
last_of value [] = value
last_of value (next ∷ rest) = last_of next rest

-- The first and the last of a sorted list.
unfoldable pub ends : List Datetime → Option (Datetime × Datetime)
unfolding last_of
ends [] = none
ends (value ∷ rest) = some (value, last_of value rest)

unfoldable pub time_range : List Datetime → Option (Datetime × Datetime)
unfolding sorted ends
time_range values = ends (sorted (λ a b. ltb_ℤ a.instant b.instant) values)

-- One more value of a date, in a table that is sorted by date.
unfoldable pub count_date : ℕ → List (ℕ × ℕ) → List (ℕ × ℕ)
count_date date [] = (date, 1) ∷ []
count_date date (e ∷ counts) =
    let rest = count_date date counts in
    if date == e.0
    then (date, suc e.1) ∷ counts
    else if ltb date e.0
    then (date, 1) ∷ e ∷ counts
    else e ∷ rest

unfoldable pub counts_of : List ℕ → List (ℕ × ℕ)
unfolding count_date
counts_of [] = []
counts_of (date ∷ dates) = count_date date (counts_of dates)

-- `date in counts`
unfoldable pub has_date : ℕ → List (ℕ × ℕ) → Bool
has_date date [] = false
has_date date (e ∷ counts) = date == e.0 || has_date date counts

-- `sorted(set(left) & set(right))` of two tables that are sorted by date.
unfoldable pub common_dates : List (ℕ × ℕ) → List (ℕ × ℕ) → List ℕ
unfolding has_date
common_dates [] right = []
common_dates (e ∷ left) right =
    let rest = common_dates left right in if has_date e.0 right then e.0 ∷ rest else rest

-- All the distances between two lists of times.
unfoldable pub distances : List Datetime → List Datetime → List ℕ
unfolding distance
distances [] right = []
distances (value ∷ left) right = map (distance value) right ++ distances left right

unfoldable pub nearest_delta_any : List Datetime → List Datetime → Option ℕ
unfolding distances first_least
nearest_delta_any left right = first_least (λ d. d) (distances left right)

-- The number of deltas that are in the window.
unfoldable pub count_within : ℤ → List ℕ → ℕ
unfolding is_at_most
count_within window [] = 0
count_within window (delta ∷ deltas) =
    let rest = count_within window deltas in if is_at_most delta window then suc rest else rest

abbrev pub is_nil {ℓ} : {A : Type ℓ} → List A → Bool
is_nil [] = true
is_nil (x ∷ xs) = false

-- Why no point was matched.
unfoldable pub unmatched_reason_of : ℕ → Bool → Bool → Bool → Bool → Bool → Option UnmatchedReason
unmatched_reason_of (suc n) _ _ _ _ _ = none
unmatched_reason_of zero no_events no_points require_same no_dates no_deltas =
    if no_events
    then some no_badge_events
    else if no_points
    then some no_ekahau_points
    else if require_same && no_dates
    then some no_same_date_overlap
    else if not no_deltas
    then some outside_match_window
    else some no_comparable_points

module _ (local_date : Text → ℤ → ℕ) (config : Config) where
  unfoldable pub measurement_date_counts : List Datetime → List (ℕ × ℕ)
  unfolding counts_of date_of
  measurement_date_counts values = counts_of (map (date_of local_date config) values)

  -- The event that is nearest to a point, among those that may be compared with it.
  unfoldable pub nearest_time : List Datetime → Datetime → Option Datetime
  unfolding filter first_least same_measurement_date distance
  nearest_time event_times point_time =
      first_least (λ event_time. distance event_time point_time)
        (filter (λ event_time. same_measurement_date local_date event_time point_time config)
          event_times)

  -- The loop over the points.
  unfoldable pub nearest_deltas : List Datetime → List Datetime → List ℕ
  unfolding nearest_time distance
  nearest_deltas event_times [] = []
  nearest_deltas event_times (point_time ∷ point_times) =
      let rest = nearest_deltas event_times point_times in
      elim (nearest_time event_times point_time) [
        | none ↦ rest
        | some nearest ↦ distance nearest point_time ∷ rest
      ]

  -- The summary, given the sorted deltas and the dates.
  unfoldable pub alignment_of :
      List Datetime → List Datetime → List (ℕ × ℕ) → List (ℕ × ℕ) → List ℕ → MatchAlignment
  unfolding match_window count_within unmatched_reason_of require_same_date common_dates time_range
      nearest_delta_any
  alignment_of event_times point_times badge_dates ekahau_dates deltas =
      let same_dates = common_dates badge_dates ekahau_dates in
      let matched_points = count_within (match_window config) deltas in
      record {
        badge_event_count = length event_times;
        ekahau_survey_point_count = length point_times;
        configured_match_window = match_window config;
        matched_survey_point_count = matched_points;
        unmatched_reason =
            unmatched_reason_of matched_points (is_nil event_times) (is_nil point_times)
              (require_same_date config) (is_nil same_dates) (is_nil deltas);
        badge_time_range = time_range event_times;
        ekahau_time_range = time_range point_times;
        badge_measurement_dates = badge_dates;
        ekahau_measurement_dates = ekahau_dates;
        same_measurement_dates = same_dates;
        nearest_delta_min = get_elem? deltas 0;
        nearest_delta_p50 = get_elem? deltas (length deltas / 2);
        nearest_delta_p90 = get_elem? deltas (length deltas * 9 / 10);
        nearest_delta_any_date = nearest_delta_any event_times point_times;
      }

  unfoldable pub summarize_times : List Datetime → List Datetime → MatchAlignment
  unfolding measurement_date_counts sorted nearest_deltas alignment_of
  summarize_times event_times point_times =
      alignment_of event_times point_times (measurement_date_counts event_times)
        (measurement_date_counts point_times) (sorted ltb (nearest_deltas event_times point_times))

  unfoldable pub summarize_match_alignment : BadgeParseResult → EkahauParseResult → MatchAlignment
  unfolding summarize_times
  summarize_match_alignment badge_result ekahau_result =
      summarize_times (map (λ e. e.event_time) badge_result.events)
        (map (λ p. p.measured_at) ekahau_result.survey_points)
