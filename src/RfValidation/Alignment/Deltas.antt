-- ===== src/RfValidation/Alignment/Deltas.antt =====
-- The deltas of `summarize_match_alignment`: they are sorted, and their quantiles are in order.
use srhc_observability_claud.Prelude.{
  ℕ, zero, suc, ◌≡◌, refl, ◌≤◌, ◌<◌, ◌/◌, ◌*◌, ◌+◌, ◌⊎◌, inl, inr, Bool-cases, Option, none, some,
  List, [], ◌∷◌, arith, ltb, ltb_cases, lt→ltb, le→ltb, length, get_elem?, map, ap, Bool, true,
  false,
}
use srhc_observability_claud.Prelude.Int.{ℤ}
use srhc_observability_claud.Prelude.Select.{All, All-map}
use srhc_observability_claud.Prelude.Text.{Text}
use srhc_observability_claud.RfValidation.Models.{BadgeParseResult, EkahauParseResult}
use srhc_observability_claud.RfValidation.Window.{Config, is_at_most}
use srhc_observability_claud.Prelude.Sort.{insert, sorted}
use srhc_observability_claud.RfValidation.Alignment.{
  nearest_deltas, alignment_of, summarize_times, count_within, summarize_match_alignment,
}

-- Each number is at most those after it.
abbrev pub IsAscending : List ℕ → Type 0
IsAscending [] = Unit
IsAscending (x ∷ xs) = All (λ y. x ≤ y) xs × IsAscending xs

insert_first : (x y : ℕ) (ys : List ℕ) → x ≤ y → insert ltb x (y ∷ ys) ≡ x ∷ y ∷ ys
unfolding insert
insert_first x y ys h = simp (le→ltb y x h)

insert_later : (x y : ℕ) (ys : List ℕ) → y < x → insert ltb x (y ∷ ys) ≡ y ∷ insert ltb x ys
unfolding insert
insert_later x y ys h = simp (lt→ltb y x h)

insert-All : (P : ℕ → Type 0) (x : ℕ) (xs : List ℕ) → P x → All P xs → All P (insert ltb x xs)
unfolding insert
insert-All P x [] h k = (h, tt)
insert-All P x (y ∷ ys) h k = elim (ltb_cases y x) [
  | inl l ↦ rw (insert_later x y ys l) (k.0, insert-All P x ys h k.1)
  | inr l ↦ rw (insert_first x y ys l) (h, k)
]

insert-IsAscending : (x : ℕ) (xs : List ℕ) → IsAscending xs → IsAscending (insert ltb x xs)
unfolding insert
insert-IsAscending x [] h = (tt, tt)
insert-IsAscending x (y ∷ ys) h = elim (ltb_cases y x) [
  | inl l ↦
      rw (insert_later x y ys l)
        (insert-All (λ z. y ≤ z) x ys (omega arith) h.0, insert-IsAscending x ys h.1)
  | inr l ↦ rw (insert_first x y ys l) ((l, All-map ys (λ z k. omega arith) h.0), h)
]

pub sorted-IsAscending : (xs : List ℕ) → IsAscending (sorted ltb xs)
unfolding sorted
sorted-IsAscending [] = tt
sorted-IsAscending (x ∷ xs) = insert-IsAscending x (sorted ltb xs) (sorted-IsAscending xs)

-- The elements at two places, the first of which is not the later one.
abbrev pub InOrder : Option ℕ → Option ℕ → Type 0
InOrder none none = Unit
InOrder (some a) (some b) = a ≤ b
InOrder _ _ = ⊥

at_least :
    (x : ℕ) (xs : List ℕ) (j : ℕ)
    → j < length xs
    → All (λ y. x ≤ y) xs
    → InOrder (some x) (get_elem? xs j)
at_least x [] j h k = absurd (omega arith)
at_least x (y ∷ ys) zero h k = k.0
at_least x (y ∷ ys) (suc j) h k = at_least x ys j (omega arith) k.1

in_order :
    (xs : List ℕ) (i j : ℕ)
    → IsAscending xs
    → i ≤ j
    → j < length xs
    → InOrder (get_elem? xs i) (get_elem? xs j)
in_order [] i j h k l = absurd (omega arith)
in_order (x ∷ xs) zero zero h k l = omega arith
in_order (x ∷ xs) zero (suc j) h k l = at_least x xs j (omega arith) h.0
in_order (x ∷ xs) (suc i) zero h k l = absurd (omega arith)
in_order (x ∷ xs) (suc i) (suc j) h k l = in_order xs i j h.1 (omega arith) (omega arith)

quantile :
    (xs : List ℕ) (i j : ℕ)
    → IsAscending xs
    → i ≤ j
    → (xs ≡ []) ⊎ (j < length xs)
    → InOrder (get_elem? xs i) (get_elem? xs j)
quantile xs i j h k (inl e) = rw e tt
quantile xs i j h k (inr l) = in_order xs i j h k l

indices : (xs : List ℕ) → (xs ≡ []) ⊎ (length xs * 9 / 10 < length xs)
indices [] = inl refl
indices (x ∷ xs) = inr (omega arith)

halves : (xs : List ℕ) → (xs ≡ []) ⊎ (length xs / 2 < length xs)
halves [] = inl refl
halves (x ∷ xs) = inr (omega arith)

half_le : (n : ℕ) → n / 2 ≤ n * 9 / 10
half_le n = omega arith

abbrev pub tick : Bool → ℕ
tick true = 1
tick false = 0

pub count_cons :
    (window : ℤ) (x : ℕ) (xs : List ℕ)
    → count_within window (x ∷ xs) ≡ tick (is_at_most x window) + count_within window xs
unfolding count_within
count_cons window x xs = elim (Bool-cases (is_at_most x window)) [
  | inl e ↦ simp e (omega arith)
  | inr e ↦ simp e (omega arith)
]

count_within-insert :
    (window : ℤ) (x : ℕ) (xs : List ℕ)
    → count_within window (insert ltb x xs) ≡ count_within window (x ∷ xs)
unfolding insert
count_within-insert window x [] = refl
count_within-insert window x (y ∷ ys) = elim (ltb_cases y x) [
  | inr l ↦ ap (count_within window) (insert_first x y ys l)
  | inl l ↦ rw (insert_later x y ys l) (
      omega (
        arith,
        count_within-insert window x ys,
        count_cons window y (insert ltb x ys),
        count_cons window x ys,
        count_cons window x (y ∷ ys),
        count_cons window y ys,
      ))
]

pub count_within-sorted :
    (window : ℤ) (xs : List ℕ) → count_within window (sorted ltb xs) ≡ count_within window xs
unfolding sorted
count_within-sorted window [] = refl
count_within-sorted window (x ∷ xs) = omega (
  arith,
  count_within-insert window x (sorted ltb xs),
  count_within-sorted window xs,
  count_cons window x xs,
  count_cons window x (sorted ltb xs),
)

-- In what summarize_match_alignment returns, the least delta, the median one and the one at nine
-- tenths are all missing or all there, and in this order none is greater than the next.
quantiles-InOrder :
    (local_date : Text → ℤ → ℕ) (config : Config) (badge_result : BadgeParseResult)
    (ekahau_result : EkahauParseResult)
    → let s = summarize_match_alignment local_date config badge_result ekahau_result in
      InOrder s.nearest_delta_min s.nearest_delta_p50
      × InOrder s.nearest_delta_p50 s.nearest_delta_p90
unfolding summarize_match_alignment summarize_times alignment_of
quantiles-InOrder local_date config badge_result ekahau_result =
    let deltas =
      nearest_deltas local_date config (map (λ e. e.event_time) badge_result.events)
        (map (λ p. p.measured_at) ekahau_result.survey_points) in
    let h = sorted-IsAscending deltas in
    (
      quantile (sorted ltb deltas) 0 (length (sorted ltb deltas) / 2) h (omega arith)
          (halves (sorted ltb deltas)),
      quantile (sorted ltb deltas) (length (sorted ltb deltas) / 2)
          (length (sorted ltb deltas) * 9 / 10) h (half_le (length (sorted ltb deltas)))
          (indices (sorted ltb deltas)),
    )
