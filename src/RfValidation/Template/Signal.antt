-- ===== src/RfValidation/Template/Signal.antt =====
-- `_badge_snr_fields`: where the badge-side signal-to-noise ratio of a template row comes from.
use srhc_observability_claud.Prelude.{
  if◌then◌else◌, not, ℕ, ◌≡◌, refl, Bool, true, false, Option, none, some, List, ◌∷◌, ◌++◌,
}
use srhc_observability_claud.Prelude.Int.{ℤ, pos, ◌≤ℤ◌}
use srhc_observability_claud.Prelude.Select.Least.{First, found, first_least_lem}
use srhc_observability_claud.Prelude.Text.{Text}
use srhc_observability_claud.RfValidation.Models.{
  BadgeParseResult, BadgeRadioSignalSample, BadgeScanCandidate, BadgeScanEvent, SnrFields, Datetime,
}
use srhc_observability_claud.RfValidation.Window.{Config, get_default, distance}
use srhc_observability_claud.RfValidation.Template.{
  is_usable, is_some, nearest_radio_signal_sample, choose_sample, fields_of, fields_of_samples,
  badge_snr_fields, channel_or,
}
use srhc_observability_claud.RfValidation.Template.Refinement.{is_at_most_iff}

-- The sample is one of the list, at most the distance away from the time, and has the ratio and
-- the time that the fields name.
pub record IsSource (samples : List BadgeRadioSignalSample) (target_time : Datetime) (window : ℤ)
    (f : SnrFields) : Type 0 where
  pub sample : BadgeRadioSignalSample
  pub before : List BadgeRadioSignalSample
  pub after : List BadgeRadioSignalSample
  pub split : samples ≡ before ++ sample ∷ after
  pub in_window : pos (distance sample.event_time target_time) ≤ℤ window
  pub ratio : f.badge_snr_db ≡ sample.snr_db
  pub time : f.badge_snr_time ≡ some sample.event_time

guards_lem :
    (a b c : Bool)
    → (if not a then false else if not b then false else c) ≡ true
    → (a ≡ true) × (b ≡ true)
guards_lem true true c h = (refl, refl)
guards_lem true false c h = absurd (cc h)
guards_lem false b c h = absurd (cc h)

usable_in_window :
    (target_time : Datetime) (channel : Option ℕ) (window : ℤ) (same : Bool)
    (sample : BadgeRadioSignalSample)
    → is_usable target_time channel window same sample ≡ true
    → pos (distance sample.event_time target_time) ≤ℤ window
unfolding is_usable
usable_in_window target_time channel window same sample h =
    (is_at_most_iff _ window).0 (guards_lem (is_some sample.snr_db) _ _ h).1

module _ (samples : List BadgeRadioSignalSample) (event : BadgeScanEvent)
    (candidate : BadgeScanCandidate) (window : ℤ) where
  abbrev IsNear : BadgeRadioSignalSample → Type 0
  IsNear sample =
      (before after : List BadgeRadioSignalSample) × (samples ≡ before ++ sample ∷ after)
      × (pos (distance sample.event_time event.event_time) ≤ℤ window)

  abbrev IsNearOption : Option BadgeRadioSignalSample → Type 0
  IsNearOption none = Unit
  IsNearOption (some sample) = IsNear sample

  nearest_is_near :
      (channel : Option ℕ) (same : Bool)
      → IsNearOption (nearest_radio_signal_sample samples event.event_time channel window same)
  unfolding nearest_radio_signal_sample
  nearest_is_near channel same = go _ (first_least_lem keep apart samples)
    where
      keep : BadgeRadioSignalSample → Bool
      keep sample = is_usable event.event_time channel window same sample

      apart : BadgeRadioSignalSample → ℕ
      apart sample = distance sample.event_time event.event_time

      go : (o : Option BadgeRadioSignalSample) → First keep apart samples o → IsNearOption o
      go none h = tt
      go (some sample) (found f) = (
        f.before,
        f.after,
        f.split,
        usable_in_window event.event_time channel window same sample f.is_kept,
      )

  -- The fields of one sample, or of none.
  fields_lem :
      (source : Text) (o : Option BadgeRadioSignalSample) (snr : ℤ)
      → IsNearOption o
      → (fields_of event candidate source o).badge_snr_db ≡ some snr
      → IsSource samples event.event_time window (fields_of event candidate source o)
  unfolding fields_of
  fields_lem source none snr h e = absurd (cc e)
  fields_lem source (some sample) snr (before, after, split, near) e = record {
    sample = sample;
    before = before;
    after = after;
    split = split;
    in_window = near;
    ratio = refl;
    time = refl;
  }

  abbrev ChosenFields : Option BadgeRadioSignalSample → Option BadgeRadioSignalSample → SnrFields
  ChosenFields same nearest =
      fields_of event candidate (choose_sample same nearest).0 (choose_sample same nearest).1

  chosen_lem :
      (same nearest : Option BadgeRadioSignalSample) (snr : ℤ)
      → IsNearOption same
      → IsNearOption nearest
      → (ChosenFields same nearest).badge_snr_db ≡ some snr
      → IsSource samples event.event_time window (ChosenFields same nearest)
  unfolding choose_sample
  chosen_lem (some sample) nearest snr h k e = fields_lem _ (some sample) snr h e
  chosen_lem none nearest snr h k e = fields_lem _ nearest snr k e

abbrev pub signal_window : Config → ℤ
signal_window config = get_default config.associated_sample_match_window (pos 300000000)

own_lem :
    (event : BadgeScanEvent) (candidate : BadgeScanCandidate) (badge_result : BadgeParseResult)
    (config : Config)
    → candidate.snr_db ≡ none
    → candidate.noise_dbm ≡ none
    → badge_snr_fields event candidate badge_result config
      ≡ fields_of_samples event candidate badge_result.radio_signal_samples config
unfolding badge_snr_fields
own_lem event candidate badge_result config h k = simp (h, k)

samples_lem :
    (event : BadgeScanEvent) (candidate : BadgeScanCandidate) (badge_result : BadgeParseResult)
    (config : Config) (snr : ℤ)
    → (fields_of_samples event candidate badge_result.radio_signal_samples config).badge_snr_db
      ≡ some snr
    → IsSource badge_result.radio_signal_samples event.event_time
        (signal_window config)
        (fields_of_samples event candidate badge_result.radio_signal_samples config)
unfolding fields_of_samples
samples_lem event candidate badge_result config snr =
    let window = signal_window config in
    let channel = channel_or candidate.channel event.connected_channel in
    let samples = badge_result.radio_signal_samples in
    chosen_lem samples event candidate window
      (nearest_radio_signal_sample samples event.event_time channel window true)
      (nearest_radio_signal_sample samples event.event_time none window false) snr
      (nearest_is_near samples event candidate window channel true)
      (nearest_is_near samples event candidate window none false)

-- Given a candidate without a ratio and a noise floor of its own: a ratio that _badge_snr_fields
-- gives for it is the ratio of one of the badge's radio samples, which was taken at most the
-- configured time away from the scan, and the fields name the time of that sample.
pub badge_snr_fields-IsSource :
    (event : BadgeScanEvent) (candidate : BadgeScanCandidate) (badge_result : BadgeParseResult)
    (config : Config) (snr : ℤ)
    → candidate.snr_db ≡ none
    → candidate.noise_dbm ≡ none
    → (badge_snr_fields event candidate badge_result config).badge_snr_db ≡ some snr
    → IsSource badge_result.radio_signal_samples event.event_time
        (signal_window config)
        (badge_snr_fields event candidate badge_result config)
badge_snr_fields-IsSource event candidate badge_result config snr h k =
    rw (own_lem event candidate badge_result config h k)
      (samples_lem event candidate badge_result config snr)
