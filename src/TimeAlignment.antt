-- ===== src/TimeAlignment.antt =====
-- The time window of tools/study_web/time_alignment.py: `overlap_window`. Epoch seconds are integers,
-- counts of a unit that is fine enough for the times that occur.
mod Tests
pub mod Counts
pub mod Rounding
pub mod Rows
pub mod Sweep
pub mod Windows
use srhc_observability_claud.Prelude.{
  Bool-cases, inl, inr, ◌↔◌, Option, none, some, arith, if◌then◌else◌,
}
use srhc_observability_claud.Prelude.Int.{ℤ, ◌+ℤ◌, ◌-ℤ◌, ◌≤ℤ◌, ltb_ℤ, +ℤ_parts, -ℤ_parts}

unfoldable pub max_ℤ : ℤ → ℤ → ℤ
max_ℤ a b = if ltb_ℤ a b then b else a

unfoldable pub min_ℤ : ℤ → ℤ → ℤ
min_ℤ a b = if ltb_ℤ b a then b else a

-- The window of two ranges that are there.
unfoldable pub overlap_of : ℤ → ℤ → ℤ → ℤ → ℤ → Option (ℤ × ℤ)
unfolding max_ℤ min_ℤ
overlap_of badge_min badge_max survey_min survey_max margin =
    let start = max_ℤ badge_min survey_min -ℤ margin in
    let end = min_ℤ badge_max survey_max +ℤ margin in
    if ltb_ℤ end start then none else some (start, end)

unfoldable pub overlap_window : Option ℤ → Option ℤ → Option ℤ → Option ℤ → ℤ → Option (ℤ × ℤ)
unfolding overlap_of
overlap_window (some badge_min) (some badge_max) (some survey_min) (some survey_max) margin =
    overlap_of badge_min badge_max survey_min survey_max margin
overlap_window _ _ _ _ margin = none

-- A time is in the window that is returned.
abbrev pub IsInWindow : ℤ → Option (ℤ × ℤ) → Type 0
IsInWindow t none = ⊥
IsInWindow t (some (start, end)) = (start ≤ℤ t) × (t ≤ℤ end)

window_times :
    (start end t : ℤ)
    → IsInWindow t (if ltb_ℤ end start then none else some (start, end))
      ↔ ((start ≤ℤ t) × (t ≤ℤ end))
window_times start end t = elim (Bool-cases (ltb_ℤ end start)) [
  | inl e ↦ simp e (λ x. absurd x, λ x. ground (arith, x.0, x.1))
  | inr e ↦ simp e (λ x. x, λ x. x)
]

max_start : (a c m t : ℤ) → (max_ℤ a c -ℤ m ≤ℤ t) ↔ ((a -ℤ m ≤ℤ t) × (c -ℤ m ≤ℤ t))
unfolding max_ℤ
max_start a c m t = elim (Bool-cases (ltb_ℤ a c)) [
  | inl e ↦ simp e (ground (arith, -ℤ_parts a m, -ℤ_parts c m))
  | inr e ↦ simp e (ground (arith, -ℤ_parts a m, -ℤ_parts c m))
]

min_end : (b d m t : ℤ) → (t ≤ℤ min_ℤ b d +ℤ m) ↔ ((t ≤ℤ b +ℤ m) × (t ≤ℤ d +ℤ m))
unfolding min_ℤ
min_end b d m t = elim (Bool-cases (ltb_ℤ d b)) [
  | inl e ↦ simp e (ground (arith, +ℤ_parts b m, +ℤ_parts d m))
  | inr e ↦ simp e (ground (arith, +ℤ_parts b m, +ℤ_parts d m))
]

-- Given both ranges, overlap_window returns a window that a time is in exactly if the time is in
-- both ranges, each widened by the margin on its two sides.
overlap_window_times :
    (badge_min badge_max survey_min survey_max margin t : ℤ)
    → IsInWindow t (
        overlap_window (some badge_min) (some badge_max) (some survey_min) (some survey_max) margin)
      ↔ ((badge_min -ℤ margin ≤ℤ t)
          × (t ≤ℤ badge_max +ℤ margin)
          × (survey_min -ℤ margin ≤ℤ t)
          × (t ≤ℤ survey_max +ℤ margin))
unfolding overlap_window
overlap_window_times a b c d m t =
    let w = window_times (max_ℤ a c -ℤ m) (min_ℤ b d +ℤ m) t in
    let s = max_start a c m t in
    let e = min_end b d m t in
    (
      λ x. let (p, q) = w.0 x in let (p1, p2) = s.0 p in let (q1, q2) = e.0 q in (p1, q1, p2, q2),
      λ x. let (p1, q1, p2, q2) = x in w.1 (s.1 (p1, p2), e.1 (q1, q2)),
    )
