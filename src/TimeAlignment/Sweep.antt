-- ===== src/TimeAlignment/Sweep.antt =====
-- The tolerance sweep of tools/study_web/time_alignment.py: `normalize_windows`, `_median`,
-- `_percentile` and `summarize_tolerance_sweep`. A float is an exact fraction.
use srhc_observability_claud.Prelude.{
  ℕ, suc, ◌+◌, ◌*◌, ◌-◌, ◌/◌, ◌%◌, min, Bool, true, false, not, Option, none, some, List, [], ◌∷◌,
  ◌++◌, map, length, get_or, leb, ltb, ◌==◌, if◌then◌else◌,
}
use srhc_observability_claud.Prelude.Int.{ℤ, pos, negsuc}
use srhc_observability_claud.Prelude.Text.{Text, text_eq, is_empty}
use srhc_observability_claud.Prelude.Ratio.{
  Ratio, ratio, add_ratio, scale_ratio, div_ratio, abs_ratio, ltb_ratio,
}
use srhc_observability_claud.Prelude.Select.{filter}
use srhc_observability_claud.Prelude.Sort.{sorted}

-- `round(n / den)`: a half goes to the even neighbour.
unfoldable pub round_half_even : ℕ → ℕ → ℕ
round_half_even n den =
    let q = n / den in
    let twice = 2 * (n % den) in
    if ltb twice den then q else if ltb den twice then suc q else if q % 2 == 0 then q else suc q

unfoldable pub rounded_of : ℤ → ℕ → Option ℕ
unfolding round_half_even
rounded_of (negsuc n) den = none
rounded_of (pos n) den =
    let value = round_half_even n den in if leb 1 value then some value else none

-- `int(round(float(raw)))`, where that is at least 1. What `float` refuses is none.
unfoldable pub window_of : Option Ratio → Option ℕ
unfolding rounded_of
window_of none = none
window_of (some raw) = rounded_of raw.num raw.den

unfoldable pub has_window : ℕ → List ℕ → Bool
has_window value [] = false
has_window value (w ∷ seen) = let rest = has_window value seen in if value == w then true else rest

-- `seen.add(value)`
unfoldable pub add_window : Option ℕ → List ℕ → List ℕ
unfolding has_window
add_window none seen = seen
add_window (some value) seen = if has_window value seen then seen else value ∷ seen

unfoldable pub collect_windows : List (Option Ratio) → List ℕ → List ℕ
unfolding add_window window_of
collect_windows [] seen = seen
collect_windows (raw ∷ raws) seen = collect_windows raws (add_window (window_of raw) seen)

unfoldable pub normalize_windows : List (Option Ratio) → Option (Option Ratio) → List ℕ
unfolding collect_windows sorted
normalize_windows windows none = sorted ltb (collect_windows windows [])
normalize_windows windows (some current) = sorted ltb (collect_windows (windows ++ current ∷ []) [])

-- `_median`
unfoldable pub median_of : List Ratio → Option Ratio
unfolding add_ratio div_ratio
median_of [] = none
median_of (first ∷ rest) =
    let n = suc (length rest) in
    let at = λ (i : ℕ). get_or (first ∷ rest) i first in
    if n % 2 == 0
    then some (div_ratio (add_ratio (at (n / 2 - 1)) (at (n / 2))) 2)
    else some (at (n / 2))

unfoldable pub median : List Ratio → Option Ratio
unfolding median_of sorted ltb_ratio
median values = median_of (sorted ltb_ratio values)

-- `_percentile` on a sorted list, for a fraction in tenths: between the elements around the rank.
unfoldable pub interpolated : List Ratio → ℕ → Option Ratio
unfolding add_ratio div_ratio scale_ratio
interpolated [] tenths = none
interpolated (value ∷ []) tenths = some value
interpolated (first ∷ rest) tenths =
    let last = length rest in
    let low = tenths * last / 10 in
    let weight = tenths * last % 10 in
    let at = λ (i : ℕ). get_or (first ∷ rest) i first in
    some (
      div_ratio
        (add_ratio (scale_ratio (10 - weight) (at low))
          (scale_ratio weight (at (min (low + 1) last))))
        10)

unfoldable pub interpolated_percentile : List Ratio → ℕ → Option Ratio
unfolding interpolated sorted ltb_ratio
interpolated_percentile values tenths = interpolated (sorted ltb_ratio values) tenths

-- An entry of `points`: what `float` refuses and what is missing are none.
pub record SweepPoint : Type 0 where
  pub delta_seconds : Option Ratio
  pub event_id : Option Text

-- An element of `parsed`.
pub record ParsedPoint : Type 0 where
  pub delta : Ratio
  pub event : Option Text

unfoldable pub event_of : Option Text → Option Text
event_of none = none
event_of (some id) = if is_empty id then none else some id

unfoldable pub parse_point : Option Ratio → Option Text → List ParsedPoint → List ParsedPoint
unfolding event_of
parse_point none id parsed = parsed
parse_point (some delta) id parsed = record { delta = delta; event = event_of id } ∷ parsed

unfoldable pub parse_points : List SweepPoint → List ParsedPoint
unfolding parse_point
parse_points [] = []
parse_points (p ∷ points) = parse_point p.delta_seconds p.event_id (parse_points points)

-- `abs(delta) <= window`
unfoldable pub is_in_window : ℕ → ParsedPoint → Bool
unfolding abs_ratio ltb_ratio ratio
is_in_window window p = not (ltb_ratio (ratio window 1) (abs_ratio p.delta))

-- `abs(delta) > NEAR_EDGE_FRACTION * window`
unfoldable pub is_near_edge : ℕ → ParsedPoint → Bool
unfolding abs_ratio ltb_ratio ratio
is_near_edge window p = ltb_ratio (ratio (8 * window) 10) (abs_ratio p.delta)

-- `event_counts.get(event_id, 0)`
unfoldable pub event_count : Text → List (Text × ℕ) → ℕ
event_count id [] = 0
event_count id ((key, n) ∷ counts) =
    let rest = event_count id counts in if text_eq id key then n else rest

-- `event_counts[event_id] = event_counts.get(event_id, 0) + 1`
unfoldable pub count_event : Text → List (Text × ℕ) → List (Text × ℕ)
count_event id [] = (id, 1) ∷ []
count_event id ((key, n) ∷ counts) =
    let rest = count_event id counts in
    if text_eq id key then (key, suc n) ∷ counts else (key, n) ∷ rest

unfoldable pub count_if_any : Option Text → List (Text × ℕ) → List (Text × ℕ)
unfolding count_event
count_if_any none counts = counts
count_if_any (some id) counts = count_event id counts

unfoldable pub count_events : List ParsedPoint → List (Text × ℕ) → List (Text × ℕ)
unfolding count_if_any
count_events [] counts = counts
count_events (p ∷ points) counts = count_events points (count_if_any p.event counts)

unfoldable pub is_ambiguous : List (Text × ℕ) → Option Text → Bool
unfolding event_count
is_ambiguous counts none = false
is_ambiguous counts (some id) = ltb 1 (event_count id counts)

pub record WindowRow : Type 0 where
  pub window_seconds : ℕ
  pub matched_points : ℕ
  pub near_edge_points : ℕ
  pub ambiguous_points : ℕ

unfoldable pub window_row : List ParsedPoint → ℕ → WindowRow
unfolding filter is_in_window is_near_edge is_ambiguous count_events
window_row parsed window =
    let in_window = filter (is_in_window window) parsed in
    let counts = count_events in_window [] in
    record {
      window_seconds = window;
      matched_points = length in_window;
      near_edge_points = length (filter (is_near_edge window) in_window);
      ambiguous_points = length (filter (λ p. is_ambiguous counts p.event) in_window);
    }

-- `min(values) if values else None`
unfoldable pub smallest : Ratio → List Ratio → Ratio
unfolding ltb_ratio
smallest best [] = best
smallest best (value ∷ values) = smallest (if ltb_ratio value best then value else best) values

unfoldable pub smallest_of : List Ratio → Option Ratio
unfolding smallest
smallest_of [] = none
smallest_of (value ∷ values) = some (smallest value values)

pub record SweepSummary : Type 0 where
  pub survey_point_count_with_same_date_badge : ℕ
  pub windows : List WindowRow
  pub abs_delta_min_seconds : Option Ratio
  pub abs_delta_median_seconds : Option Ratio
  pub abs_delta_p90_seconds : Option Ratio
  pub signed_delta_median_seconds : Option Ratio
  pub signed_deltas : List Ratio

unfoldable pub summarize_tolerance_sweep : List SweepPoint → List (Option Ratio) → SweepSummary
unfolding parse_points normalize_windows window_row median interpolated_percentile smallest_of
    abs_ratio
summarize_tolerance_sweep points windows =
    let parsed = parse_points points in
    let signed_deltas = map (λ p. ParsedPoint.delta p) parsed in
    let abs_deltas = map abs_ratio signed_deltas in
    record {
      survey_point_count_with_same_date_badge = length parsed;
      windows = map (window_row parsed) (normalize_windows windows none);
      abs_delta_min_seconds = smallest_of abs_deltas;
      abs_delta_median_seconds = median abs_deltas;
      abs_delta_p90_seconds = interpolated_percentile abs_deltas 9;
      signed_delta_median_seconds = median signed_deltas;
      signed_deltas = signed_deltas;
    }
