-- ===== src/RfValidation/Correlate/Complete.antt =====
-- The composition of `build_manual_entry_template` and `correlate_template_rows` under one
-- configuration.
use srhc_observability_claud.Prelude.{
  ℕ, ◌≡◌, ◌≢◌, refl, ap, Bool, true, false, Bool-cases, inl, inr, Option, none, some, List, [], ◌∷◌,
  map, if◌then◌else◌, leb,
}
use srhc_observability_claud.Prelude.Int.{ℤ}
use srhc_observability_claud.Prelude.Select.{All, All-append}
use srhc_observability_claud.Prelude.Select.Least.{First, found, first_least_lem}
use srhc_observability_claud.Prelude.Text.{Text}
use srhc_observability_claud.RfValidation.Models.{
  BadgeParseResult, BadgeScanCandidate, BadgeScanEvent, EkahauParseResult, EkahauSurveyPoint,
  ManualObservation, CandidateTemplateRow, CorrelatedMatch, unmatched, exact_1s, close_5s,
  within_window,
}
use srhc_observability_claud.RfValidation.Window.{
  second, Config, get_default, match_quality, quality_of, within_match_window,
  same_measurement_date, distance, difference, abs,
}
use srhc_observability_claud.RfValidation.Template.{
  template_row, nearest_event, rows_of, template_loop, build_manual_entry_template,
}
use srhc_observability_claud.RfValidation.Template.Refinement.{build-template_loop}
use srhc_observability_claud.RfValidation.Correlate.{
  manual_by_template_key, ManualIndex, match_of, correlate_row, is_comparable, correlate_loop,
  correlate_template_rows,
}

labels_lem :
    (a b : Bool) → (if a then exact_1s else if b then close_5s else within_window) ≢ unmatched
labels_lem true b e = absurd (cc e)
labels_lem false true e = absurd (cc e)
labels_lem false false e = absurd (cc e)

quality_of_lem : (a : ℕ) → quality_of a ≢ unmatched
unfolding quality_of
quality_of_lem a = labels_lem (leb a second) (leb a 5000000)

-- What names a row, and the match of a row.
abbrev pub row_id : CandidateTemplateRow → Text × Text × ℕ
row_id row = (row.survey_point_id, row.badge_event_id, row.badge_candidate_index)

abbrev pub match_id : CorrelatedMatch → Text × Text × ℕ
match_id m = (m.survey_point_id, m.badge_event_id, m.badge_candidate_index)

module _ (local_date : Text → ℤ → ℕ) (upper : Text → Text) (badge_result : BadgeParseResult)
    (ekahau_result : EkahauParseResult) (config : Config) where
  -- A row that correlate_template_rows keeps, with a label of its own.
  abbrev pub IsMatched : CandidateTemplateRow → Type 0
  IsMatched row =
      (same_measurement_date local_date row.badge_time row.survey_time config ≡ true)
      × (within_match_window row.time_delta config ≡ true)
      × (row.match_quality ≢ unmatched)

  rows_of-IsMatched :
      (point : EkahauSurveyPoint) (event : BadgeScanEvent) (candidates : List BadgeScanCandidate)
      → same_measurement_date local_date event.event_time point.measured_at config ≡ true
      → within_match_window (difference event.event_time point.measured_at) config ≡ true
      → All IsMatched (map (template_row badge_result ekahau_result config point event) candidates)
  unfolding template_row match_quality get_default
  rows_of-IsMatched point event [] h k = tt
  rows_of-IsMatched point event (c ∷ cs) h k = (
    (h, k, simp k (quality_of_lem (abs (difference event.event_time point.measured_at)))),
    rows_of-IsMatched point event cs h k,
  )

  point-IsMatched :
      (point : EkahauSurveyPoint)
      → All IsMatched (
          rows_of local_date badge_result ekahau_result config point
            (nearest_event local_date badge_result ekahau_result config point))
  unfolding nearest_event rows_of
  point-IsMatched point = go _ (first_least_lem on_date apart badge_result.events)
    where
      on_date : BadgeScanEvent → Bool
      on_date event = same_measurement_date local_date event.event_time point.measured_at config

      apart : BadgeScanEvent → ℕ
      apart event = distance event.event_time point.measured_at

      go :
          (o : Option BadgeScanEvent)
          → First on_date apart badge_result.events o
          → All IsMatched (rows_of local_date badge_result ekahau_result config point o)
      go none h = tt
      go (some event) (found f) =
          elim (Bool-cases
            (within_match_window (difference event.event_time point.measured_at) config)) [
              | inl e ↦ simp e (rows_of-IsMatched point event event.candidates f.is_kept e)
              | inr e ↦ simp e tt
            ]

  loop-IsMatched :
      (points : List EkahauSurveyPoint)
      → All IsMatched (template_loop local_date badge_result ekahau_result config points)
  unfolding template_loop
  loop-IsMatched [] = tt
  loop-IsMatched (point ∷ points) =
      All-append IsMatched _ _ (point-IsMatched point) (loop-IsMatched points)

  build-IsMatched :
      All IsMatched (build_manual_entry_template local_date badge_result ekahau_result config)
  build-IsMatched =
      rw (build-template_loop local_date badge_result ekahau_result config)
        (loop-IsMatched ekahau_result.survey_points)

  correlate_keeps :
      (manual_index : ManualIndex) (rows : List CandidateTemplateRow)
      → All IsMatched rows
      → map match_id (correlate_loop local_date upper config manual_index rows) ≡ map row_id rows
  unfolding correlate_loop is_comparable correlate_row match_of
  correlate_keeps manual_index [] h = refl
  correlate_keeps manual_index (row ∷ rows) h =
      simp (h.0.0, h.0.1) (ap (◌∷◌ (row_id row)) (correlate_keeps manual_index rows h.1))

  -- Under one configuration, correlate_template_rows drops none of the rows that
  -- build_manual_entry_template returns: it gives one match for each row, in the order of the rows,
  -- with the row's survey point, badge event and candidate.
  pub correlate-build_manual_entry_template :
      (manual_observations : List ManualObservation)
      → map match_id (
          correlate_template_rows local_date upper config
            (build_manual_entry_template local_date badge_result ekahau_result config)
            manual_observations)
        ≡ map row_id (build_manual_entry_template local_date badge_result ekahau_result config)
  unfolding correlate_template_rows
  correlate-build_manual_entry_template manual_observations =
      correlate_keeps (manual_by_template_key manual_observations) _ build-IsMatched
