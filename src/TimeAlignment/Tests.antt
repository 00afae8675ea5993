-- ===== src/TimeAlignment/Tests.antt =====
-- Three survey points, two of them next to the same badge reading, and the theorems on them.
use srhc_observability_claud.Prelude.{
  ◌↔◌, ◌≤◌, true, arith, ℕ, ◌≡◌, refl, Option, none, some, List, [], ◌∷◌, map,
}
use srhc_observability_claud.Prelude.Int.{pos, negsuc}
use srhc_observability_claud.Prelude.Text.{codes}
use srhc_observability_claud.Prelude.Ratio.{Ratio}
use srhc_observability_claud.Prelude.Select.{All}
use srhc_observability_claud.TimeAlignment.Sweep.{
  SweepPoint, WindowRow, has_window, normalize_windows, summarize_tolerance_sweep,
}
use srhc_observability_claud.TimeAlignment.Windows.{IsGiven, with_current, normalize_windows_lem}
use srhc_observability_claud.TimeAlignment.Windows.Order.{Ascending}
use srhc_observability_claud.TimeAlignment.Rows.{IsRow, Widening, summarize_tolerance_sweep_rows}

abbrev points : List SweepPoint
points =
    record { delta_seconds = some (record { num = pos 9; den = 10 }); event_id = some (codes "a") }
    ∷ record {
      delta_seconds = some (record { num = negsuc 24; den = 10 });
      event_id = some (codes "a");
    }
    ∷ record { delta_seconds = none; event_id = some (codes "b") }
    ∷ record { delta_seconds = some (record { num = pos 4; den = 1 }); event_id = some [] }
    ∷ []

-- 5, 2.5, a text that is no number, 1, 2 and 0.5.
abbrev raw_windows : List (Option Ratio)
raw_windows =
    some (record { num = pos 5; den = 1 })
    ∷ some (record { num = pos 25; den = 10 })
    ∷ none
    ∷ some (record { num = pos 10; den = 10 })
    ∷ some (record { num = pos 2; den = 1 })
    ∷ some (record { num = pos 5; den = 10 })
    ∷ []

normalized :
    normalize_windows raw_windows (some (some (record { num = pos 3; den = 1 })))
    ≡ 1 ∷ 2 ∷ 3 ∷ 5 ∷ []
unfolding normalize_windows
normalized = refl

abbrev numbers : WindowRow → List ℕ
numbers r = r.window_seconds ∷ r.matched_points ∷ r.near_edge_points ∷ r.ambiguous_points ∷ []

swept :
    map numbers (summarize_tolerance_sweep points raw_windows).windows
    ≡ (1 ∷ 1 ∷ 1 ∷ 0 ∷ []) ∷ (2 ∷ 1 ∷ 0 ∷ 0 ∷ []) ∷ (5 ∷ 3 ∷ 0 ∷ 2 ∷ []) ∷ []
unfolding summarize_tolerance_sweep
swept = refl

normalize_windows_lem_example :
    Ascending (normalize_windows raw_windows (some none))
    × ((v : ℕ)
        → (has_window v (normalize_windows raw_windows (some none)) ≡ true)
          ↔ ((1 ≤ v) × IsGiven v (with_current raw_windows (some none))))
normalize_windows_lem_example =
    normalize_windows_lem raw_windows (some none)
      (ground arith, (ground arith, (ground arith, (ground arith, (ground arith, tt)))))

summarize_tolerance_sweep_rows_example :
    let s = summarize_tolerance_sweep points raw_windows in
    All (IsRow s.survey_point_count_with_same_date_badge) s.windows × Widening s.windows
summarize_tolerance_sweep_rows_example = summarize_tolerance_sweep_rows points raw_windows
