-- ===== src/RfValidation/Template/Refinement.antt =====
-- `build_manual_entry_template` against a description that knows no minimum and no filter.
use srhc_observability_claud.Prelude.{
  arith, ℕ, ◌≡◌, refl, sym, ◌∙◌, ◌↔◌, Bool, true, false, Bool-cases, inl, inr, Option, none, some,
  List, [], ◌∷◌, ◌++◌, map,
}
use srhc_observability_claud.Prelude.Int.{ℤ, pos, negsuc, ◌≤ℤ◌}
use srhc_observability_claud.Prelude.Select.{All, IsFirstLeast}
use srhc_observability_claud.Prelude.Select.Least.{
  First, nothing, found, first_least_lem, First-unique,
}
use srhc_observability_claud.Prelude.Text.{Text}
use srhc_observability_claud.RfValidation.Models.{
  BadgeParseResult, BadgeScanEvent, EkahauParseResult, EkahauSurveyPoint, CandidateTemplateRow,
}
use srhc_observability_claud.RfValidation.Window.{
  Config, match_window, is_at_most, within_match_window, same_measurement_date, distance,
  difference,
}
use srhc_observability_claud.RfValidation.Template.{
  template_row, nearest_event, rows_of, template_loop, build_manual_entry_template,
}

pub is_at_most_iff : (a : ℕ) (w : ℤ) → (is_at_most a w ≡ true) ↔ (pos a ≤ℤ w)
unfolding is_at_most
is_at_most_iff a (pos b) = ground arith
is_at_most_iff a (negsuc b) = ground arith

module _ (local_date : Text → ℤ → ℕ) (badge_result : BadgeParseResult)
    (ekahau_result : EkahauParseResult) (config : Config) where
  abbrev on_date : EkahauSurveyPoint → BadgeScanEvent → Bool
  on_date point event = same_measurement_date local_date event.event_time point.measured_at config

  abbrev apart : EkahauSurveyPoint → BadgeScanEvent → ℕ
  apart point event = distance event.event_time point.measured_at

  -- The event is on the point's date, if dates have to agree, and no such event is nearer; of those
  -- that are as near it is the first.
  abbrev pub IsNearest : EkahauSurveyPoint → BadgeScanEvent → Type 0
  IsNearest point event = IsFirstLeast (on_date point) (apart point) badge_result.events event

  abbrev pub IsInMatchWindow : EkahauSurveyPoint → BadgeScanEvent → Type 0
  IsInMatchWindow point event = pos (apart point event) ≤ℤ match_window config

  -- What a point gives.
  pub data RowsFor (point : EkahauSurveyPoint) : List CandidateTemplateRow → Type 0 where
    no_comparable : All (λ e. on_date point e ≡ false) badge_result.events → RowsFor point []
    outside_window :
        {event : BadgeScanEvent}
        → IsNearest point event
        → ¬ IsInMatchWindow point event
        → RowsFor point []
    matched :
        {event : BadgeScanEvent}
        → IsNearest point event
        → IsInMatchWindow point event
        → RowsFor point
            (map (template_row badge_result ekahau_result config point event) event.candidates)

  pub data IsTemplate : List EkahauSurveyPoint → List CandidateTemplateRow → Type 0 where
    done : IsTemplate [] []
    more :
        {point : EkahauSurveyPoint} {points : List EkahauSurveyPoint}
        {rows rest : List CandidateTemplateRow}
        → RowsFor point rows
        → IsTemplate points rest
        → IsTemplate (point ∷ points) (rows ++ rest)

  within_iff :
      (point : EkahauSurveyPoint) (event : BadgeScanEvent)
      → (within_match_window (difference event.event_time point.measured_at) config ≡ true)
        ↔ IsInMatchWindow point event
  unfolding within_match_window distance
  within_iff point event = is_at_most_iff _ _

  outside_iff :
      (point : EkahauSurveyPoint) (event : BadgeScanEvent)
      → ¬ IsInMatchWindow point event
      → within_match_window (difference event.event_time point.measured_at) config ≡ false
  outside_iff point event h =
      elim (Bool-cases
        (within_match_window (difference event.event_time point.measured_at) config)) [
          | inl e ↦ absurd (h ((within_iff point event).0 e))
          | inr e ↦ e
        ]

  abbrev Nearest : EkahauSurveyPoint → Option BadgeScanEvent → Type 0
  Nearest point o = First (on_date point) (apart point) badge_result.events o

  nearest_event_lem :
      (point : EkahauSurveyPoint)
      → Nearest point (nearest_event local_date badge_result ekahau_result config point)
  unfolding nearest_event
  nearest_event_lem point = first_least_lem (on_date point) (apart point) badge_result.events

  nearest_event_unique :
      (point : EkahauSurveyPoint) (o : Option BadgeScanEvent)
      → Nearest point o
      → nearest_event local_date badge_result ekahau_result config point ≡ o
  unfolding nearest_event
  nearest_event_unique point o h =
      First-unique (on_date point) (apart point) badge_result.events o h

  rows_of_sound :
      (point : EkahauSurveyPoint) (o : Option BadgeScanEvent)
      → Nearest point o
      → RowsFor point (rows_of local_date badge_result ekahau_result config point o)
  unfolding rows_of
  rows_of_sound point none (nothing h) = no_comparable h
  rows_of_sound point (some event) (found f) =
      elim (Bool-cases
        (within_match_window (difference event.event_time point.measured_at) config)) [
          | inl e ↦ simp e (matched f ((within_iff point event).0 e))
          | inr e ↦ simp e (outside_window f (λ h. absurd (cc (e, (within_iff point event).1 h))))
        ]

  rows_of_complete :
      (point : EkahauSurveyPoint) (rows : List CandidateTemplateRow)
      → RowsFor point rows
      → rows_of local_date badge_result ekahau_result config point
          (nearest_event local_date badge_result ekahau_result config point)
        ≡ rows
  unfolding rows_of
  rows_of_complete point rows (no_comparable h) =
      rw (nearest_event_unique point none (nothing h)) refl
  rows_of_complete point rows (outside_window {event} f h) =
      rw (nearest_event_unique point (some event) (found f)) (simp (outside_iff point event h))
  rows_of_complete point rows (matched {event} f h) =
      rw (nearest_event_unique point (some event) (found f)) (simp ((within_iff point event).1 h))

  template_loop_sound :
      (points : List EkahauSurveyPoint)
      → IsTemplate points (template_loop local_date badge_result ekahau_result config points)
  unfolding template_loop
  template_loop_sound [] = done
  template_loop_sound (point ∷ points) =
      more (rows_of_sound point _ (nearest_event_lem point)) (template_loop_sound points)

  template_loop_complete :
      (points : List EkahauSurveyPoint) (rows : List CandidateTemplateRow)
      → IsTemplate points rows
      → template_loop local_date badge_result ekahau_result config points ≡ rows
  unfolding template_loop
  template_loop_complete [] rows done = refl
  template_loop_complete (point ∷ points) _ (more {rows} {rest} r t) =
      rw (rows_of_complete point rows r, template_loop_complete points rest t)

  -- With no events the loop gives nothing either.
  loop_of_none :
      (points : List EkahauSurveyPoint)
      → badge_result.events ≡ []
      → template_loop local_date badge_result ekahau_result config points ≡ []
  loop_of_none points e = template_loop_complete points [] (empty points e)
    where
      none_of : (point : EkahauSurveyPoint) → badge_result.events ≡ [] → RowsFor point []
      none_of point e = no_comparable (rw e tt)

      empty : (points : List EkahauSurveyPoint) → badge_result.events ≡ [] → IsTemplate points []
      empty [] e = done
      empty (point ∷ points) e = more (none_of point e) (empty points e)

  pub build-template_loop :
      build_manual_entry_template local_date badge_result ekahau_result config
      ≡ template_loop local_date badge_result ekahau_result config ekahau_result.survey_points
  unfolding build_manual_entry_template
  build-template_loop = go badge_result.events refl
    where
      go :
          (events : List BadgeScanEvent)
          → badge_result.events ≡ events
          → elim events [
            | [] ↦ []
            | _ ∷ _ ↦
                template_loop local_date badge_result ekahau_result config
                  ekahau_result.survey_points
          ]
            ≡ template_loop local_date badge_result ekahau_result config ekahau_result.survey_points
      go [] e = sym (loop_of_none ekahau_result.survey_points e)
      go (_ ∷ _) e = refl

  -- build_manual_entry_template returns a list of rows exactly if, point after point, the list holds:
  -- no rows for a point that has no badge event on its local date (any event serves if the
  -- configuration does not require the same date); no rows for a point whose nearest such event,
  -- the first of those that are as near, is farther away than the match window; and otherwise one
  -- row for each candidate of that event, in the event's order.
  pub build_template_refines :
      (rows : List CandidateTemplateRow)
      → (build_manual_entry_template local_date badge_result ekahau_result config ≡ rows)
        ↔ IsTemplate ekahau_result.survey_points rows
  build_template_refines rows = (
    λ e. rw (← e, build-template_loop) (template_loop_sound ekahau_result.survey_points),
    λ t. build-template_loop ∙ template_loop_complete ekahau_result.survey_points rows t,
  )
