-- ===== src/TimeAlignment/Rows.antt =====
-- The rows of the tolerance sweep of tools/study_web/time_alignment.py.
use native.Mathlib.Nat.{mul-le-mul_right}
use srhc_observability_claud.Prelude.{
  ℕ, ◌+◌, ◌*◌, ◌≤◌, ◌<◌, ◌≡◌, ◌≢◌, refl, sym, ap, ◌∙◌, Bool, true, Option, none, some, List, [],
  ◌∷◌, map, length, arith, ltb→lt, lt→ltb, if◌then◌else◌,
}
use srhc_observability_claud.Prelude.Int.{◌*ℤ◌, pos_part, neg_part}
use srhc_observability_claud.Prelude.Text.{Text}
use srhc_observability_claud.Prelude.Ratio.{Ratio}
use srhc_observability_claud.Prelude.Select.{filter, All, All-map, All-const, map-All}
use srhc_observability_claud.TimeAlignment.Counts.{
  length-filter_le, length-filter_all, length-filter_nested, is_event, is_shared, is_ambiguous_lem,
  not_one_shared,
}
use srhc_observability_claud.TimeAlignment.Windows.Order.{Ascending}
use srhc_observability_claud.TimeAlignment.Windows.{normalize_windows-Ascending}
use srhc_observability_claud.TimeAlignment.Sweep.{
  ParsedPoint, SweepPoint, WindowRow, is_in_window, is_near_edge, window_row, parse_points,
  normalize_windows, summarize_tolerance_sweep,
}

magnitude : ParsedPoint → ℕ
magnitude p = pos_part p.delta.num + neg_part p.delta.num

is_in_window_le :
    (w : ℕ) (p : ParsedPoint) → is_in_window w p ≡ true → magnitude p ≤ w * p.delta.den
unfolding is_in_window magnitude ◌*ℤ◌
is_in_window_le w p e = ground (arith, e)

le_is_in_window :
    (w : ℕ) (p : ParsedPoint) → magnitude p ≤ w * p.delta.den → is_in_window w p ≡ true
unfolding is_in_window magnitude ◌*ℤ◌
le_is_in_window w p h = ground (arith, h)

is_in_window_mono :
    (w v : ℕ) (p : ParsedPoint) → w ≤ v → is_in_window w p ≡ true → is_in_window v p ≡ true
is_in_window_mono w v p l e =
    le_is_in_window v p (omega (arith, is_in_window_le w p e, mul-le-mul_right p.delta.den l))

abbrev in_window : List ParsedPoint → ℕ → List ParsedPoint
in_window parsed w = filter (is_in_window w) parsed

-- The points of a row whose event is shared within the window.
abbrev shared_points : List ParsedPoint → ℕ → List ParsedPoint
shared_points parsed w = filter (λ p. is_shared (in_window parsed w) p.event) (in_window parsed w)

filter_same {ℓ} :
    {A : Type ℓ} (p q : A → Bool) (xs : List A) → ((x : A) → p x ≡ q x) → filter p xs ≡ filter q xs
unfolding filter
filter_same p q [] h = refl
filter_same p q (x ∷ xs) h =
    ap (λ b. if b then x ∷ filter p xs else filter p xs) (h x)
    ∙ ap (λ ys. if q x then x ∷ ys else ys) (filter_same p q xs h)

ambiguous_points_lem :
    (parsed : List ParsedPoint) (w : ℕ)
    → (window_row parsed w).ambiguous_points ≡ length (shared_points parsed w)
unfolding window_row
ambiguous_points_lem parsed w =
    ap length
      (filter_same _ _ (in_window parsed w) (λ p. is_ambiguous_lem (in_window parsed w) p.event))

is_shared_mono :
    (parsed : List ParsedPoint) (w v : ℕ) (event : Option Text)
    → w ≤ v
    → is_shared (in_window parsed w) event ≡ true
    → is_shared (in_window parsed v) event ≡ true
is_shared_mono parsed w v none l e = e
is_shared_mono parsed w v (some id) l e =
    let more =
      length-filter_nested (is_in_window w) (λ p. is_event id p.event) (is_in_window v)
        (λ p. is_event id p.event) parsed (λ p. is_in_window_mono w v p l) (λ p h. h) in
    lt→ltb 1 _ (omega (arith, more, ltb→lt 1 _ e))

pub record IsRow (total : ℕ) (r : WindowRow) : Type 0 where
  pub matched_bound : r.matched_points ≤ total
  pub near_edge_bound : r.near_edge_points ≤ r.matched_points
  pub ambiguous_bound : r.ambiguous_points ≤ r.matched_points
  pub not_one_ambiguous : r.ambiguous_points ≢ 1

pub record IsWider (r s : WindowRow) : Type 0 where
  pub longer : r.window_seconds < s.window_seconds
  pub more_matched : r.matched_points ≤ s.matched_points
  pub more_ambiguous : r.ambiguous_points ≤ s.ambiguous_points

-- Each row is of a longer window than those before it, and counts at least as many points.
abbrev pub Widening : List WindowRow → Type 0
Widening [] = Unit
Widening (r ∷ rows) = All (IsWider r) rows × Widening rows

window_row-IsRow : (parsed : List ParsedPoint) (w : ℕ) → IsRow (length parsed) (window_row parsed w)
unfolding window_row
window_row-IsRow parsed w =
    let shared = ambiguous_points_lem parsed w in
    record {
      matched_bound = length-filter_all (is_in_window w) parsed;
      near_edge_bound = length-filter_all (is_near_edge w) (in_window parsed w);
      ambiguous_bound = length-filter_all _ (in_window parsed w);
      not_one_ambiguous = λ e. not_one_shared (in_window parsed w) (sym shared ∙ e);
    }

window_row-IsWider :
    (parsed : List ParsedPoint) (w v : ℕ)
    → w < v
    → IsWider (window_row parsed w) (window_row parsed v)
unfolding window_row
window_row-IsWider parsed w v l =
    let le : w ≤ v = omega (arith, l) in
    let within = λ (p : ParsedPoint). is_in_window_mono w v p le in
    let more =
      length-filter_nested (is_in_window w) (λ p. is_shared (in_window parsed w) p.event)
        (is_in_window v) (λ p. is_shared (in_window parsed v) p.event) parsed within
        (λ p. is_shared_mono parsed w v p.event le) in
    record {
      longer = l;
      more_matched = length-filter_le (is_in_window w) (is_in_window v) parsed within;
      more_ambiguous =
          omega (arith, more, ambiguous_points_lem parsed w, ambiguous_points_lem parsed v);
    }

rows-Widening :
    (parsed : List ParsedPoint) (windows : List ℕ)
    → Ascending windows
    → Widening (map (window_row parsed) windows)
rows-Widening parsed [] a = tt
rows-Widening parsed (w ∷ windows) a = (
  map-All (IsWider (window_row parsed w)) (window_row parsed) windows
      (All-map windows (λ v l. window_row-IsWider parsed w v l) a.0),
  rows-Widening parsed windows a.1,
)

-- In every row of summarize_tolerance_sweep the matched points are at most the points with a
-- delta, the near-edge points and the ambiguous ones are at most the matched ones, and the
-- ambiguous ones are never exactly one. The rows are in the order of their windows, which all
-- differ, and a row counts at least as many matched and ambiguous points as those before it.
pub summarize_tolerance_sweep_rows :
    (points : List SweepPoint) (windows : List (Option Ratio))
    → let s = summarize_tolerance_sweep points windows in
      All (IsRow s.survey_point_count_with_same_date_badge) s.windows × Widening s.windows
unfolding summarize_tolerance_sweep
summarize_tolerance_sweep_rows points windows =
    let parsed = parse_points points in
    let sound = λ (w : ℕ). window_row-IsRow parsed w in
    (
      map-All (IsRow (length parsed)) (window_row parsed) (normalize_windows windows none)
          (All-const _ (normalize_windows windows none) sound),
      rows-Widening parsed (normalize_windows windows none)
          (normalize_windows-Ascending windows none),
    )
