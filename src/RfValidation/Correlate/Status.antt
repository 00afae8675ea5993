-- ===== src/RfValidation/Correlate/Status.antt =====
-- `correlate_template_rows`: the statuses and the deltas of the matches.
use srhc_observability_claud.Prelude.{
  ℕ, ◌≡◌, refl, Bool-cases, inl, inr, Option, none, some, List, [], ◌∷◌,
}
use srhc_observability_claud.Prelude.Int.{ℤ, ◌+ℤ◌, ◌-ℤ◌, int_laws, eq_of_parts}
use srhc_observability_claud.Prelude.Select.{All}
use srhc_observability_claud.Prelude.Text.{Text}
use srhc_observability_claud.RfValidation.Models.{
  ManualObservation, CandidateTemplateRow, CorrelatedMatch, complete, pending_manual_entry,
  missing_vendor_offset,
}
use srhc_observability_claud.RfValidation.Window.{Config}
use srhc_observability_claud.RfValidation.Template.{difference_of}
use srhc_observability_claud.RfValidation.Correlate.{
  manual_by_template_key, ManualIndex, sum_of, status_of, match_of, correlate_row, is_comparable,
  correlate_loop, correlate_template_rows,
}

sub_sum : (b r o : ℤ) → b -ℤ (r +ℤ o) ≡ b -ℤ r -ℤ o
sub_sum b r o = omega (int_laws, eq_of_parts (b -ℤ (r +ℤ o)) (b -ℤ r -ℤ o))

-- The status, the deltas and the numbers that they come from agree.
pub data IsConsistent (m : CorrelatedMatch) : Type 0 where
  pending :
      m.manual_entry_status ≡ pending_manual_entry
      → m.ekahau_rssi_dbm ≡ none
      → m.raw_delta_db ≡ none
      → m.calibrated_delta_db ≡ none
      → IsConsistent m
  no_offset :
      {rssi : ℤ}
      → m.manual_entry_status ≡ missing_vendor_offset
      → m.ekahau_rssi_dbm ≡ some rssi
      → m.vendor_offset_db ≡ none
      → m.calibrated_delta_db ≡ none
      → IsConsistent m
  completed :
      {rssi offset : ℤ}
      → m.manual_entry_status ≡ complete
      → m.ekahau_rssi_dbm ≡ some rssi
      → m.vendor_offset_db ≡ some offset
      → ((badge : ℤ)
          → m.badge_rssi_dbm ≡ some badge
          → (m.raw_delta_db ≡ some (badge -ℤ rssi))
            × (m.calibrated_delta_db ≡ some (badge -ℤ rssi -ℤ offset)))
      → IsConsistent m

no_minuend : (badge : Option ℤ) → difference_of badge none ≡ none
unfolding difference_of
no_minuend none = refl
no_minuend (some b) = refl

match_of-IsConsistent :
    (row : CandidateTemplateRow) (rssi snr : Option ℤ) (band : Option Text) (offset : Option ℤ)
    → IsConsistent (match_of row rssi snr band offset)
unfolding match_of sum_of status_of difference_of
match_of-IsConsistent row none snr band offset =
    pending refl refl (no_minuend row.badge_rssi_dbm) (no_minuend row.badge_rssi_dbm)
match_of-IsConsistent row (some r) snr band none =
    no_offset refl refl refl (no_minuend row.badge_rssi_dbm)
match_of-IsConsistent row (some r) snr band (some o) =
    completed refl refl refl (deltas row.badge_rssi_dbm)
  where
    deltas :
        (badge_rssi : Option ℤ) (badge : ℤ)
        → badge_rssi ≡ some badge
        → (difference_of badge_rssi (some r) ≡ some (badge -ℤ r))
          × (difference_of badge_rssi (some (r +ℤ o)) ≡ some (badge -ℤ r -ℤ o))
    deltas badge_rssi badge e = rw e (refl, rw (sub_sum badge r o) refl)

module _ (local_date : Text → ℤ → ℕ) (upper : Text → Text) (config : Config) where
  correlate_row-IsConsistent :
      (manual : Option ManualObservation) (row : CandidateTemplateRow)
      → IsConsistent (correlate_row local_date upper config manual row)
  unfolding correlate_row
  correlate_row-IsConsistent manual row = match_of-IsConsistent row _ _ _ _

  correlate_loop-IsConsistent :
      (manual_index : ManualIndex) (rows : List CandidateTemplateRow)
      → All IsConsistent (correlate_loop local_date upper config manual_index rows)
  unfolding correlate_loop
  correlate_loop-IsConsistent manual_index [] = tt
  correlate_loop-IsConsistent manual_index (row ∷ rows) =
      elim (Bool-cases (is_comparable local_date upper config row)) [
        | inl e ↦
            simp e (correlate_row-IsConsistent _ row, correlate_loop-IsConsistent manual_index rows)
        | inr e ↦ simp e (correlate_loop-IsConsistent manual_index rows)
      ]

  -- Every match that correlate_template_rows returns is in one of three cases. Its status is
  -- pending_manual_entry, there is no Ekahau signal, and neither delta is given. Its status is
  -- missing_vendor_offset, the signal is there, the offset is not, and no calibrated delta is given.
  -- Its status is complete, and both are there; if the badge's signal is there too, the raw delta is
  -- that signal less the Ekahau one, and the calibrated delta is the raw one less the offset.
  pub correlate_template_rows_consistent :
      (rows : List CandidateTemplateRow) (manual_observations : List ManualObservation)
      → All IsConsistent (correlate_template_rows local_date upper config rows manual_observations)
  unfolding correlate_template_rows
  correlate_template_rows_consistent rows manual_observations =
      correlate_loop-IsConsistent (manual_by_template_key manual_observations) rows
