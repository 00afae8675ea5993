-- ===== src/RfValidation/Alignment/Unmatched.antt =====
-- `summarize_match_alignment` and `build_manual_entry_template`: a summary without a matched point is
-- about an empty template.
use srhc_observability_claud.Prelude.{
  arith, ℕ, ◌≡◌, refl, sym, ◌∙◌, Bool, true, false, Option, none, some, List, [], ◌∷◌, map,
}
use srhc_observability_claud.Prelude.Int.{ℤ}
use srhc_observability_claud.Prelude.Select.{All}
use srhc_observability_claud.Prelude.Select.Least.{first_least-map, image}
use srhc_observability_claud.Prelude.Text.{Text}
use srhc_observability_claud.RfValidation.Models.{
  Datetime, BadgeParseResult, BadgeScanEvent, EkahauParseResult, EkahauSurveyPoint,
}
use srhc_observability_claud.RfValidation.Window.{
  Config, is_at_most, match_window, within_match_window, same_measurement_date, distance,
}
use srhc_observability_claud.RfValidation.Template.{
  nearest_event, rows_of, template_loop, build_manual_entry_template,
}
use srhc_observability_claud.RfValidation.Template.Refinement.{build-template_loop}
use srhc_observability_claud.Prelude.Sort.{}
use srhc_observability_claud.RfValidation.Alignment.{
  count_within, nearest_time, nearest_deltas, alignment_of, summarize_times,
  summarize_match_alignment,
}
use srhc_observability_claud.RfValidation.Alignment.Deltas.{tick, count_cons, count_within-sorted}

no_tick : (b : Bool) → tick b ≡ 0 → b ≡ false
no_tick true h = absurd (omega arith)
no_tick false h = refl

none_within :
    (window : ℤ) (deltas : List ℕ)
    → count_within window deltas ≡ 0
    → All (λ d. is_at_most d window ≡ false) deltas
none_within window [] h = tt
none_within window (d ∷ ds) h = (
  no_tick (is_at_most d window) (omega (arith, count_cons window d ds)),
  none_within window ds (omega (arith, count_cons window d ds)),
)

module _ (local_date : Text → ℤ → ℕ) (config : Config) (badge_result : BadgeParseResult)
    (ekahau_result : EkahauParseResult) where
  abbrev event_times : List Datetime
  event_times = map (λ e. e.event_time) badge_result.events

  -- Both functions look for the same event.
  nearest_agree :
      (point : EkahauSurveyPoint)
      → nearest_time local_date config event_times point.measured_at
        ≡ image
            (λ e. e.event_time)
            (nearest_event local_date badge_result ekahau_result config point)
  unfolding nearest_time nearest_event
  nearest_agree point =
      first_least-map (λ e. e.event_time)
        (λ t. same_measurement_date local_date t point.measured_at config)
        (λ t. distance t point.measured_at) badge_result.events

  abbrev AllFar : List ℕ → Type 0
  AllFar deltas = All (λ d. is_at_most d (match_window config) ≡ false) deltas

  -- A point whose nearest event is out of the window gives no rows.
  far_rows :
      (point : EkahauSurveyPoint) (rest : List ℕ) (o : Option BadgeScanEvent)
      → AllFar (elim (image (λ e. e.event_time) o) [
        | none ↦ rest
        | some nearest ↦ distance nearest point.measured_at ∷ rest
      ])
      → (rows_of local_date badge_result ekahau_result config point o ≡ []) × AllFar rest
  unfolding rows_of within_match_window distance
  far_rows point rest none h = (refl, h)
  far_rows point rest (some e) h = (simp h.0, h.1)

  far_seen :
      (point : EkahauSurveyPoint) (rest : List ℕ) (time : Option Datetime)
      (o : Option BadgeScanEvent)
      → time ≡ image (λ e. e.event_time) o
      → AllFar
          (elim time [ none ↦ rest | some nearest ↦ distance nearest point.measured_at ∷ rest ])
      → (rows_of local_date badge_result ekahau_result config point o ≡ []) × AllFar rest
  far_seen point rest time o e = rw e (far_rows point rest o)

  far_template :
      (points : List EkahauSurveyPoint)
      → AllFar (nearest_deltas local_date config event_times (map (λ p. p.measured_at) points))
      → template_loop local_date badge_result ekahau_result config points ≡ []
  unfolding template_loop nearest_deltas
  far_template [] h = refl
  far_template (point ∷ points) h =
      let rest = nearest_deltas local_date config event_times (map (λ p. p.measured_at) points) in
      let far = far_seen point rest _ _ (nearest_agree point) h in
      rw far.0 (far_template points far.1)

  -- If summarize_match_alignment counts no matched survey point, build_manual_entry_template returns
  -- no rows.
  pub template_of_unmatched :
      (summarize_match_alignment local_date config badge_result
          ekahau_result).matched_survey_point_count
        ≡ 0
      → build_manual_entry_template local_date badge_result ekahau_result config ≡ []
  unfolding summarize_match_alignment summarize_times alignment_of
  template_of_unmatched h =
      let deltas =
        nearest_deltas local_date config event_times
          (map (λ p. p.measured_at) ekahau_result.survey_points) in
      build-template_loop local_date badge_result ekahau_result config
      ∙ far_template ekahau_result.survey_points (
          none_within (match_window config) deltas
            (sym (count_within-sorted (match_window config) deltas) ∙ h))
