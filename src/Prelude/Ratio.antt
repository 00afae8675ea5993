-- ===== src/Prelude/Ratio.antt =====
-- Exact fractions, for what the program computes in floating point: a numerator over a positive
-- denominator, not in lowest terms.
use srhc_observability_claud.Prelude.{ℕ, ◌+◌, ◌*◌, Bool}
use srhc_observability_claud.Prelude.Int.{ℤ, pos, pos_part, neg_part, ◌+ℤ◌, ◌-ℤ◌, ◌*ℤ◌, ltb_ℤ}

pub record Ratio : Type 0 where
  pub num : ℤ
  pub den : ℕ

unfoldable pub ratio : ℕ → ℕ → Ratio
ratio a b = record { num = pos a; den = b }

unfoldable pub add_ratio : Ratio → Ratio → Ratio
add_ratio a b = record { num = a.num *ℤ pos b.den +ℤ b.num *ℤ pos a.den; den = a.den * b.den }

unfoldable pub sub_ratio : Ratio → Ratio → Ratio
sub_ratio a b = record { num = a.num *ℤ pos b.den -ℤ b.num *ℤ pos a.den; den = a.den * b.den }

unfoldable pub scale_ratio : ℕ → Ratio → Ratio
scale_ratio n a = record { num = a.num *ℤ pos n; den = a.den }

-- Division by a positive number.
unfoldable pub div_ratio : Ratio → ℕ → Ratio
div_ratio a n = record { num = a.num; den = a.den * n }

unfoldable pub abs_ratio : Ratio → Ratio
abs_ratio a = record { num = pos (pos_part a.num + neg_part a.num); den = a.den }

unfoldable pub ltb_ratio : Ratio → Ratio → Bool
unfolding ◌*ℤ◌
ltb_ratio a b = ltb_ℤ (a.num *ℤ pos b.den) (b.num *ℤ pos a.den)
