-- ===== src/RfValidation/Alignment/Reason.antt =====
-- The reasons of `summarize_match_alignment`, and what they say of the template.
use srhc_observability_claud.Prelude.{
  ℕ, zero, suc, ◌≡◌, ◌≢◌, refl, sym, ap, ◌∙◌, inl, inr, Bool, true, false, ◌&&◌, Bool-cases, Option,
  none, some, List, [], ◌∷◌, map, ltb, ◌==◌, if◌then◌else◌,
}
use srhc_observability_claud.Prelude.Int.{ℤ}
use srhc_observability_claud.Prelude.Select.{map-All, All-swap, All, All-map}
use srhc_observability_claud.Prelude.Select.Least.{First, nothing, found, first_least_lem}
use srhc_observability_claud.Prelude.Text.{Text}
use srhc_observability_claud.RfValidation.Models.{Datetime, BadgeParseResult, EkahauParseResult}
use srhc_observability_claud.RfValidation.Window.{
  Config, require_same_date, date_of, same_measurement_date, distance,
}
use srhc_observability_claud.Prelude.Sort.{insert, sorted}
use srhc_observability_claud.RfValidation.Alignment.{
  no_comparable_points, count_date, counts_of, has_date, common_dates, is_nil, unmatched_reason_of,
  measurement_date_counts, nearest_deltas, alignment_of, summarize_times, summarize_match_alignment,
}

and_true : (a b : Bool) → a ≡ true → b ≡ true → (a && b) ≢ false
and_true true true h k e = cc e
and_true true false h k e = cc k
and_true false b h k e = cc h

count_date-All :
    (P : ℕ → Type 0) (date : ℕ) (counts : List (ℕ × ℕ))
    → P date
    → All (λ e. P e.0) counts
    → All (λ e. P e.0) (count_date date counts)
unfolding count_date
count_date-All P date [] h k = (h, tt)
count_date-All P date (e ∷ counts) h k =
    choose (date == e.0) (ltb date e.0) (count_date-All P date counts h k.1)
  where
    choose :
        (a b : Bool)
        → All (λ e. P e.0) (count_date date counts)
        → All
            (λ e. P e.0)
            (if a
              then (date, suc e.1) ∷ counts
              else if b
              then (date, 1) ∷ e ∷ counts
              else e ∷ count_date date counts)
    choose true b r = (h, k.1)
    choose false true r = (h, k)
    choose false false r = (k.0, r)

counts_of-All : (P : ℕ → Type 0) (dates : List ℕ) → All P dates → All (λ e. P e.0) (counts_of dates)
unfolding counts_of
counts_of-All P [] h = tt
counts_of-All P (d ∷ dates) h = count_date-All P d _ h.0 (counts_of-All P dates h.1)

none_in :
    (date : ℕ) (counts : List (ℕ × ℕ))
    → All (λ e. (date == e.0) ≡ false) counts
    → has_date date counts ≡ false
unfolding has_date
none_in date [] h = refl
none_in date (e ∷ counts) h = rw h.0 (none_in date counts h.1)

-- A date that no value has is not in the table.
has-counts_of :
    (date : ℕ) (dates : List ℕ)
    → All (λ d. (date == d) ≡ false) dates
    → has_date date (counts_of dates) ≡ false
has-counts_of date dates h =
    none_in date (counts_of dates) (counts_of-All (λ d. (date == d) ≡ false) dates h)

common_none :
    (left right : List (ℕ × ℕ))
    → All (λ e. has_date e.0 right ≡ false) left
    → common_dates left right ≡ []
unfolding common_dates
common_none [] right h = refl
common_none (e ∷ left) right h = simp h.0 (common_none left right h.1)

-- The only way to the last reason.
reason_lem :
    (n : ℕ) (a b c d e : Bool)
    → unmatched_reason_of n a b c d e ≡ some no_comparable_points
    → (a ≡ false) × (b ≡ false) × ((c && d) ≡ false) × (e ≡ true)
unfolding unmatched_reason_of
reason_lem (suc n) a b c d e h = absurd (cc h)
reason_lem zero true b c d e h = absurd (cc h)
reason_lem zero false true c d e h = absurd (cc h)
reason_lem zero false false true true e h = absurd (cc h)
reason_lem zero false false true false true h = (refl, refl, refl, refl)
reason_lem zero false false true false false h = absurd (cc h)
reason_lem zero false false false d true h = (refl, refl, refl, refl)
reason_lem zero false false false d false h = absurd (cc h)

is_nil-insert : (x : ℕ) (xs : List ℕ) → is_nil (insert ltb x xs) ≡ false
unfolding insert
is_nil-insert x [] = refl
is_nil-insert x (y ∷ ys) = choose (ltb y x)
  where
    choose : (b : Bool) → is_nil (if b then y ∷ insert ltb x ys else x ∷ y ∷ ys) ≡ false
    choose true = refl
    choose false = refl

is_nil-sorted : (xs : List ℕ) → is_nil (sorted ltb xs) ≡ true → xs ≡ []
unfolding sorted
is_nil-sorted [] h = refl
is_nil-sorted (x ∷ xs) h = absurd (cc (h, is_nil-insert x (sorted ltb xs)))

module _ (local_date : Text → ℤ → ℕ) (config : Config) where
  abbrev ApartFrom : List Datetime → Datetime → Type 0
  ApartFrom events point = All (λ e. same_measurement_date local_date e point config ≡ false) events

  -- Without a delta, no event may be compared with any point.
  no_deltas :
      (events points : List Datetime)
      → nearest_deltas local_date config events points ≡ []
      → All (ApartFrom events) points
  unfolding nearest_deltas
  no_deltas events [] h = tt
  no_deltas events (p ∷ ps) h = go _ (no_deltas events ps) (first_least_lem same apart events) h
    where
      same : Datetime → Bool
      same e = same_measurement_date local_date e p config

      apart : Datetime → ℕ
      apart e = distance e p

      go :
          (o : Option Datetime)
          → (nearest_deltas local_date config events ps ≡ [] → All (ApartFrom events) ps)
          → First same apart events o
          → elim o [
            | none ↦ nearest_deltas local_date config events ps
            | some nearest ↦ distance nearest p ∷ nearest_deltas local_date config events ps
          ]
            ≡ []
          → All (ApartFrom events) (p ∷ ps)
      go none rest (nothing k) h = (k, rest h)
      go (some n) rest (found f) h = absurd (cc h)

  same_if_required :
      (left right : Datetime)
      → require_same_date config ≡ true
      → same_measurement_date local_date left right config
        ≡ (date_of local_date config left == date_of local_date config right)
  unfolding same_measurement_date
  same_if_required left right e = simp e

  same_if_free :
      (left right : Datetime)
      → require_same_date config ≡ false
      → same_measurement_date local_date left right config ≡ true
  unfolding same_measurement_date
  same_if_free left right e = simp e

  -- If the dates have to agree and none do, the two tables have no date in common.
  no_common_dates :
      (events points : List Datetime)
      → require_same_date config ≡ true
      → All (ApartFrom events) points
      → common_dates
          (measurement_date_counts local_date config events)
          (measurement_date_counts local_date config points)
        ≡ []
  unfolding measurement_date_counts
  no_common_dates events points r h =
      common_none _ right (counts_of-All IsAbsent _ (map-All IsAbsent date events (absent swapped)))
    where
      date : Datetime → ℕ
      date = date_of local_date config

      right : List (ℕ × ℕ)
      right = counts_of (map date points)

      IsAbsent : ℕ → Type 0
      IsAbsent d = has_date d right ≡ false

      IsApart : Datetime → Datetime → Type 0
      IsApart e p = same_measurement_date local_date e p config ≡ false

      swapped : All (λ e. All (λ p. IsApart e p) points) events
      swapped = All-swap IsApart events points h

      absent : All (λ e. All (λ p. IsApart e p) points) events → All (λ e. IsAbsent (date e)) events
      absent = All-map events (λ e k. has-counts_of (date e) (map date points) (
          map-All (λ d. (date e == d) ≡ false) date points
            (All-map points (λ p a. sym (same_if_required e p r) ∙ a) k)))

  -- The last reason needs both lists, no date in common where one is required, and no delta.
  comparable_exists :
      (events points : List Datetime)
      → is_nil events ≡ false
      → is_nil points ≡ false
      → (require_same_date config
          && is_nil (
              common_dates
                (measurement_date_counts local_date config events)
                (measurement_date_counts local_date config points)))
        ≡ false
      → nearest_deltas local_date config events points ≢ []
  comparable_exists [] points h k l e = cc h
  comparable_exists (x ∷ events) [] h k l e = cc k
  comparable_exists (x ∷ events) (p ∷ points) h k l e =
      elim (Bool-cases (require_same_date config)) [
        | inl r ↦
            and_true _ _ r
              (ap is_nil (no_common_dates (x ∷ events) (p ∷ points) r (no_deltas _ (p ∷ points) e)))
              l
        | inr r ↦ cc (same_if_free x p r, (no_deltas (x ∷ events) (p ∷ points) e).0.0)
      ]

  summarize_times_reason :
      (events points : List Datetime)
      → (summarize_times local_date config events points).unmatched_reason
        ≢ some no_comparable_points
  unfolding summarize_times alignment_of
  summarize_times_reason events points e =
      let (a, b, c, d) = reason_lem _ _ _ _ _ _ e in
      comparable_exists events points a b c (is_nil-sorted _ d)

  -- summarize_match_alignment never gives the reason no_comparable_points: if both lists have
  -- entries, and a date in common where the configuration requires one, then some survey point has
  -- an event to compare it with.
  pub no_comparable_points_unreachable :
      (badge_result : BadgeParseResult) (ekahau_result : EkahauParseResult)
      → (summarize_match_alignment local_date config badge_result ekahau_result).unmatched_reason
        ≢ some no_comparable_points
  unfolding summarize_match_alignment
  no_comparable_points_unreachable badge_result ekahau_result =
      summarize_times_reason (map (λ e. e.event_time) badge_result.events)
        (map (λ p. p.measured_at) ekahau_result.survey_points)
