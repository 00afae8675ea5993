-- ===== src/TimeAlignment/Rounding.antt =====
-- The rounding of the windows of tools/study_web/time_alignment.py.
use native.Mathlib.Nat.{div-add-mod', mod-lt, mul-le-mul_right, le_of_mul-le-mul_right}
use srhc_observability_claud.Prelude.{
  false, ◌⊎◌, ◌<◌, ◌≡◌, suc, ℕ, suc, ◌+◌, ◌*◌, ◌/◌, ◌%◌, ◌≤◌, ◌<◌, ◌≡◌, ◌==◌, arith, ltb,
  Bool-cases, inl, inr,
}
use srhc_observability_claud.TimeAlignment.Sweep.{round_half_even}

abbrev pub IsNearest : ℕ → ℕ → ℕ → Type 0
IsNearest n den v = (2 * n ≤ 2 * (v * den) + den) × (2 * (v * den) ≤ 2 * n + den)

-- The number is half way between two whole ones, of which v is one.
abbrev pub IsTie : ℕ → ℕ → ℕ → Type 0
IsTie n den v = (2 * n ≡ 2 * (v * den) + den) ⊎ (2 * (v * den) ≡ 2 * n + den)

-- The whole number v is next to the fraction n / den, and even if another one is as near.
abbrev pub IsRounding : ℕ → ℕ → ℕ → Type 0
IsRounding n den v = IsNearest n den v × (IsTie n den v → v % 2 ≡ 0)

down :
    (n den q r : ℕ)
    → q * den + r ≡ n
    → 2 * r ≤ den
    → ((2 * r < den) × (0 < den)) ⊎ (q % 2 ≡ 0)
    → IsRounding n den q
down n den q r e h (inl (l, z)) =
    ((omega (arith, e, h), omega (arith, e, h)), λ t. absurd (ground (arith, e, l, z, t)))
down n den q r e h (inr k) = ((omega (arith, e, h), omega (arith, e, h)), λ t. k)

up :
    (n den q r : ℕ)
    → q * den + r ≡ n
    → r < den
    → den ≤ 2 * r
    → (den < 2 * r) ⊎ (suc q % 2 ≡ 0)
    → IsRounding n den (suc q)
up n den q r e l h (inl k) =
    ((omega (arith, e, h, l), omega (arith, e, h, l)), λ t. absurd (ground (arith, e, l, k, t)))
up n den q r e l h (inr k) = ((omega (arith, e, h, l), omega (arith, e, h, l)), λ t. k)

pub round_half_even-IsRounding : (n den : ℕ) → 0 < den → IsRounding n den (round_half_even n den)
unfolding round_half_even
round_half_even-IsRounding n den h =
    let e = div-add-mod' n den in
    let l = mod-lt n h in
    elim (Bool-cases (ltb (2 * (n % den)) den)) [
      | inl a ↦
          simp a (down n den (n / den) (n % den) e (ground (arith, a)) (inl (ground (arith, a), h)))
      | inr a ↦ elim (Bool-cases (ltb den (2 * (n % den)))) [
        | inl b ↦
            simp (a, b)
              (up n den (n / den) (n % den) e l (ground (arith, b)) (inl (ground (arith, b))))
        | inr b ↦ elim (Bool-cases ((n / den) % 2 == 0)) [
          | inl c ↦
              simp (a, b, c)
                (down n den (n / den) (n % den) e (ground (arith, b)) (inr (ground (arith, c))))
          | inr c ↦
              simp (a, b, c)
                (up n den (n / den) (n % den) e l (ground (arith, a)) (inr (odd_next (n / den) c)))
        ]
      ]
    ]
  where
    odd_next : (q : ℕ) → (q % 2 == 0) ≡ false → suc q % 2 ≡ 0
    odd_next q c = ground (arith, c)

-- Two nearest whole numbers are the same, or neighbours at a tie.
not_less : (n den v w : ℕ) → 0 < den → IsRounding n den v → IsRounding n den w → ¬ (v < w)
not_less n den v w h ((a, b), even) ((c, d), even') l =
    let next : suc v * den ≤ w * den = mul-le-mul_right den l in
    let tie : 2 * n ≡ 2 * (v * den) + den = omega (arith, next, a, d) in
    let tie' : 2 * (w * den) ≡ 2 * n + den = omega (arith, next, a, d) in
    let near : w ≤ suc v = le_of_mul-le-mul_right (omega (arith, tie, tie', next)) h in
    let parity = even (inl tie) in
    let parity' = even' (inr tie') in omega (arith, near, l, parity, parity')

pub IsRounding-unique : (n den v w : ℕ) → 0 < den → IsRounding n den v → IsRounding n den w → v ≡ w
IsRounding-unique n den v w h a b =
    omega (arith, not_less n den v w h a b, not_less n den w v h b a)
