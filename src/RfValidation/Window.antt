-- ===== src/RfValidation/Window.antt =====
-- The match window and the local-date guard of tools/vocera_rf_validation/correlate.py
-- (`_match_window_seconds`, `_within_match_window`, `match_quality`, `_same_measurement_date`) and
-- the configuration they read. Seconds are counts of microseconds.
use srhc_observability_claud.Prelude.{
  ℕ, Bool, true, false, not, Option, none, some, List, ◌==◌, leb, if◌then◌else◌, ◌+◌,
}
use srhc_observability_claud.Prelude.Int.{ℤ, pos, negsuc, ◌-ℤ◌, pos_part, neg_part}
use srhc_observability_claud.Prelude.Text.{Text, codes}
use srhc_observability_claud.RfValidation.Models.{
  Datetime, MatchQuality, exact_1s, close_5s, within_window,
}

-- A value of `rssi_offsets.by_model`: a table from bands to offsets, or something else, of which
-- only its truth counts.
pub data ModelOffsets : Type 0 where
  table : List (Text × Option ℤ) → ModelOffsets
  other : Bool → ModelOffsets

pub record Config : Type 0 where
  pub timezone : Option Text
  pub default_match_window : Option ℤ
  pub require_same_measurement_date : Option Bool
  pub associated_sample_match_window : Option ℤ
  pub by_model : List (Text × ModelOffsets)
  pub by_band : List (Text × Option ℤ)

-- `config.get(key, default)`
unfoldable pub get_default {ℓ} : {A : Type ℓ} → Option A → A → A
get_default none default = default
get_default (some value) default = value

-- One second.
abbrev pub second : ℕ
second = 1000000

unfoldable pub match_window : Config → ℤ
unfolding get_default
match_window config = get_default config.default_match_window (pos second)

-- `abs` of an integer.
unfoldable pub abs : ℤ → ℕ
abs a = pos_part a + neg_part a

-- A number is at most an integer.
unfoldable pub is_at_most : ℕ → ℤ → Bool
is_at_most a (pos b) = leb a b
is_at_most a (negsuc b) = false

unfoldable pub within_match_window : ℤ → Config → Bool
unfolding abs is_at_most match_window
within_match_window delta config = is_at_most (abs delta) (match_window config)

-- The label of a delta that is in the window.
unfoldable pub quality_of : ℕ → MatchQuality
quality_of abs_delta =
    if leb abs_delta second
    then exact_1s
    else if leb abs_delta 5000000
    then close_5s
    else within_window

unfoldable pub match_quality : ℤ → Config → Option MatchQuality
unfolding abs within_match_window quality_of
match_quality delta config =
    if not (within_match_window delta config) then none else some (quality_of (abs delta))

unfoldable pub require_same_date : Config → Bool
unfolding get_default
require_same_date config = get_default config.require_same_measurement_date true

-- `(left - right).total_seconds()` of two times with a zone.
unfoldable pub difference : Datetime → Datetime → ℤ
difference left right = left.instant -ℤ right.instant

-- How far two times are apart.
unfoldable pub distance : Datetime → Datetime → ℕ
unfolding abs difference
distance left right = abs (difference left right)

-- The calendar of a time zone, from the zone database: the number of the local day of an instant.
module _ (local_date : Text → ℤ → ℕ) where
  unfoldable pub date_of : Config → Datetime → ℕ
  unfolding get_default
  date_of config value =
      local_date (get_default config.timezone (codes "America/Chicago")) value.instant

  unfoldable pub same_measurement_date : Datetime → Datetime → Config → Bool
  unfolding require_same_date date_of
  same_measurement_date left right config =
      if not (require_same_date config) then true else date_of config left == date_of config right
