-- ===== src/TimeAlignment/Windows.antt =====
-- The windows of the tolerance sweep of tools/study_web/time_alignment.py: `normalize_windows`.
pub mod Order
use srhc_observability_claud.TimeAlignment.Windows.Order.{
  Ascending, sorted-Ascending, collect_windows-Distinct,
}
use srhc_observability_claud.Prelude.Int.{ℤ, pos, negsuc}
use srhc_observability_claud.TimeAlignment.Rounding.{
  IsRounding, round_half_even-IsRounding, IsRounding-unique,
}
use srhc_observability_claud.Prelude.{
  ◌≤◌, sym, leb, leb→le, ◌⊎◌, ◌↔◌, ◌||◌, ◌∙◌, refl, ap, if◌then◌else◌, true, Bool, ℕ, ◌<◌, ◌≡◌, ◌≢◌,
  inl, inr, false, Option, none, some, List, [], ◌∷◌, ◌++◌, arith, ltb, ltb→lt, ==_iff, ◌==◌,
  Bool-cases,
}
use srhc_observability_claud.Prelude.Select.{All, All-map}
use srhc_observability_claud.Prelude.Ratio.{Ratio}
use srhc_observability_claud.Prelude.Sort.{insert, sorted}
use srhc_observability_claud.TimeAlignment.Sweep.{
  has_window, add_window, window_of, collect_windows, normalize_windows, rounded_of,
  round_half_even,
}

pub normalize_windows-Ascending :
    (windows : List (Option Ratio)) (current : Option (Option Ratio))
    → Ascending (normalize_windows windows current)
unfolding normalize_windows
normalize_windows-Ascending windows none =
    sorted-Ascending _ (collect_windows-Distinct windows [] tt)
normalize_windows-Ascending windows (some current) =
    sorted-Ascending _ (collect_windows-Distinct (windows ++ current ∷ []) [] tt)

insert_member : (v w : ℕ) (ws : List ℕ) → has_window v (insert ltb w ws) ≡ has_window v (w ∷ ws)
unfolding insert has_window
insert_member v w [] = refl
insert_member v w (u ∷ ws) = elim (Bool-cases (ltb u w)) [
  | inr e ↦ simp e refl
  | inl e ↦ simp e (
      ap (λ b. if v == u then true else b) (insert_member v w ws)
      ∙ swap (v == u) (v == w) (has_window v ws))
]
  where
    swap :
        (a b c : Bool)
        → (if a then true else if b then true else c) ≡ (if b then true else if a then true else c)
    swap true true c = refl
    swap true false c = refl
    swap false true c = refl
    swap false false c = refl

sorted_member : (v : ℕ) (ws : List ℕ) → has_window v (sorted ltb ws) ≡ has_window v ws
unfolding sorted has_window
sorted_member v [] = refl
sorted_member v (w ∷ ws) =
    insert_member v w (sorted ltb ws) ∙ ap (λ b. if v == w then true else b) (sorted_member v ws)

-- The windows that are given, in their order and with repetitions.
abbrev put : Option ℕ → List ℕ → List ℕ
put none ws = ws
put (some w) ws = w ∷ ws

abbrev pub windows_of : List (Option Ratio) → List ℕ
windows_of [] = []
windows_of (raw ∷ raws) = put (window_of raw) (windows_of raws)

has_same : (v w : ℕ) (ws : List ℕ) → v ≡ w → has_window w ws ≡ true → has_window v ws ≡ true
has_same v w ws q h = rw q h

add_window_member :
    (v : ℕ) (o : Option ℕ) (seen ws : List ℕ)
    → (has_window v (add_window o seen) || has_window v ws)
      ≡ (has_window v seen || has_window v (put o ws))
unfolding add_window has_window
add_window_member v none seen ws = refl
add_window_member v (some w) seen ws = elim (Bool-cases (v == w)) [
  | inr g ↦ elim (Bool-cases (has_window w seen)) [
    | inl e ↦ simp (e, g) refl
    | inr e ↦ simp (e, g) refl
  ]
  | inl g ↦ elim (Bool-cases (has_window w seen)) [
    | inl e ↦ simp (e, g, has_same v w seen ((==_iff v w).0 g) e) refl
    | inr e ↦ simp (e, g) (or_true (has_window v seen))
  ]
]
  where
    or_true : (b : Bool) → true ≡ (b || true)
    or_true true = refl
    or_true false = refl

collect_windows_member :
    (v : ℕ) (raws : List (Option Ratio)) (seen : List ℕ)
    → has_window v (collect_windows raws seen)
      ≡ (has_window v seen || has_window v (windows_of raws))
unfolding collect_windows has_window
collect_windows_member v [] seen = or_false (has_window v seen)
  where
    or_false : (b : Bool) → b ≡ (b || false)
    or_false true = refl
    or_false false = refl
collect_windows_member v (raw ∷ raws) seen =
    collect_windows_member v raws (add_window (window_of raw) seen)
    ∙ add_window_member v (window_of raw) seen (windows_of raws)

-- The fractions have positive denominators.
abbrev pub AreFractions : List (Option Ratio) → Type 0
AreFractions [] = Unit
AreFractions (none ∷ raws) = AreFractions raws
AreFractions (some raw ∷ raws) = (0 < raw.den) × AreFractions raws

abbrev pub RoundsTo : ℤ → ℕ → ℕ → Type 0
RoundsTo (pos n) den v = IsRounding n den v
RoundsTo (negsuc n) den v = ⊥

-- The number is what one of the values is rounded to.
abbrev pub IsGiven : ℕ → List (Option Ratio) → Type 0
IsGiven v [] = ⊥
IsGiven v (none ∷ raws) = IsGiven v raws
IsGiven v (some raw ∷ raws) = RoundsTo raw.num raw.den v ⊎ IsGiven v raws

some_injective : (a b : ℕ) → some a ≡ some b → a ≡ b
some_injective a b e = cc

some_not_none : (v : ℕ) → ¬ (◌≡◌ {A = Option ℕ} none (some v))
some_not_none v e = cc

rounded_of-some :
    (num : ℤ) (den v : ℕ) → 0 < den → rounded_of num den ≡ some v → (1 ≤ v) × RoundsTo num den v
unfolding rounded_of
rounded_of-some (negsuc n) den v h = λ e. cc
rounded_of-some (pos n) den v h = elim (Bool-cases (leb 1 (round_half_even n den))) [
  | inl l ↦ simp l (λ e.
      let q : round_half_even n den ≡ v = some_injective _ _ e in
      rw (sym q) (leb→le 1 (round_half_even n den) l, round_half_even-IsRounding n den h))
  | inr l ↦ simp l (λ e. cc)
]

some-rounded_of :
    (num : ℤ) (den v : ℕ) → 0 < den → 1 ≤ v → RoundsTo num den v → rounded_of num den ≡ some v
unfolding rounded_of
some-rounded_of (negsuc n) den v h l r = absurd r
some-rounded_of (pos n) den v h l r =
    let q =
      IsRounding-unique n den (round_half_even n den) v h (round_half_even-IsRounding n den h) r in
    let k : leb 1 (round_half_even n den) ≡ true = ground (arith, q, l) in simp k (ap some q)

has_put :
    (v : ℕ) (o : Option ℕ) (ws : List ℕ)
    → (has_window v (put o ws) ≡ true) ↔ ((o ≡ some v) ⊎ (has_window v ws ≡ true))
unfolding has_window
has_put v none ws = (λ h. inr h, λ h. elim h [ inl e ↦ absurd (some_not_none v e) | inr k ↦ k ])
has_put v (some w) ws = elim (Bool-cases (v == w)) [
  | inl e ↦ simp e (λ h. inl (ap some (sym ((==_iff v w).0 e))), λ h. refl)
  | inr e ↦ simp e (
    λ h. inr h,
    λ h. elim h [ inl q ↦ absurd (differ e (sym (some_injective w v q))) | inr k ↦ k ],
  )
]
  where
    differ : (v == w) ≡ false → v ≢ w
    differ e = λ q. absurd (ground (arith, e, (==_iff v w).1 q))

windows_of_member :
    (v : ℕ) (raws : List (Option Ratio))
    → AreFractions raws
    → (has_window v (windows_of raws) ≡ true) ↔ ((1 ≤ v) × IsGiven v raws)
unfolding window_of has_window
windows_of_member v [] h = (λ e. absurd (ground (arith, e)), λ g. absurd g.1)
windows_of_member v (none ∷ raws) h = windows_of_member v raws h
windows_of_member v (some raw ∷ raws) (d, h) =
    let put_iff = has_put v (rounded_of raw.num raw.den) (windows_of raws) in
    let rest = windows_of_member v raws h in
    (
      λ e. elim (put_iff.0 e) [
        | inl q ↦ let k = rounded_of-some raw.num raw.den v d q in (k.0, inl k.1)
        | inr k ↦ let g = rest.0 k in (g.0, inr g.1)
      ],
      λ g. put_iff.1 (elim g.1 [
        | inl r ↦ inl (some-rounded_of raw.num raw.den v d g.0 r)
        | inr k ↦ inr (rest.1 (g.0, k))
      ]),
    )

abbrev pub with_current : List (Option Ratio) → Option (Option Ratio) → List (Option Ratio)
with_current windows none = windows
with_current windows (some current) = windows ++ current ∷ []

normalize_windows_member :
    (v : ℕ) (windows : List (Option Ratio)) (current : Option (Option Ratio))
    → has_window v (normalize_windows windows current)
      ≡ has_window v (windows_of (with_current windows current))
unfolding normalize_windows
normalize_windows_member v windows none =
    sorted_member v (collect_windows windows []) ∙ collect_windows_member v windows []
normalize_windows_member v windows (some current) =
    sorted_member v (collect_windows (windows ++ current ∷ []) [])
    ∙ collect_windows_member v (windows ++ current ∷ []) []

-- For fractions with positive denominators, normalize_windows returns windows in ascending order,
-- no two of them equal; and a number is one of them exactly if it is at least 1 and one of the
-- given values, or the current one, is rounded to it: to the nearest whole number, and half way
-- between two to the even one.
pub normalize_windows_lem :
    (windows : List (Option Ratio)) (current : Option (Option Ratio))
    → AreFractions (with_current windows current)
    → Ascending (normalize_windows windows current)
      × ((v : ℕ)
          → (has_window v (normalize_windows windows current) ≡ true)
            ↔ ((1 ≤ v) × IsGiven v (with_current windows current)))
normalize_windows_lem windows current h = (
  normalize_windows-Ascending windows current,
  λ v.
      let e = normalize_windows_member v windows current in
      let m = windows_of_member v (with_current windows current) h in
      (λ k. m.0 (sym e ∙ k), λ g. e ∙ m.1 g),
)
