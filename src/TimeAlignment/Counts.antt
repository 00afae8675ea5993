-- ===== src/TimeAlignment/Counts.antt =====
-- What the counts of the tolerance sweep of tools/study_web/time_alignment.py amount to: the
-- dictionary of events has the number of points of each event.
use srhc_observability_claud.Prelude.{
  ltb→lt, ltb, ℕ, suc, ◌+◌, ◌≤◌, ◌<◌, ◌≡◌, ◌≢◌, refl, sym, ap, ◌∙◌, Bool, true, false, ◌&&◌, Option,
  none, some, List, [], ◌∷◌, length, arith, Bool-cases, inl, inr,
}
use srhc_observability_claud.Prelude.Text.{Text, text_eq, text_eq_iff}
use srhc_observability_claud.Prelude.Select.{filter}
use srhc_observability_claud.TimeAlignment.Sweep.{
  is_ambiguous, ParsedPoint, event_count, count_event, count_if_any, count_events,
}

and_mono :
    (a b c d : Bool) → (a ≡ true → c ≡ true) → (b ≡ true → d ≡ true) → a && b ≡ true → c && d ≡ true
and_mono a b c d f g h = ground (arith, f, g, h)

module _ {ℓ} {A : Type ℓ} where
  pub length-filter_le :
      (p q : A → Bool) (xs : List A)
      → ((x : A) → p x ≡ true → q x ≡ true)
      → length (filter p xs) ≤ length (filter q xs)
  unfolding filter
  length-filter_le p q [] h = omega arith
  length-filter_le p q (x ∷ xs) h =
      let rest = length-filter_le p q xs h in
      elim (Bool-cases (p x)) [
        | inl e ↦ simp (e, h x e) (omega (arith, rest))
        | inr e ↦ elim (Bool-cases (q x)) [
          | inl g ↦ simp (e, g) (omega (arith, rest))
          | inr g ↦ simp (e, g) rest
        ]
      ]

  pub length-filter_all : (p : A → Bool) (xs : List A) → length (filter p xs) ≤ length xs
  unfolding filter
  length-filter_all p [] = omega arith
  length-filter_all p (x ∷ xs) =
      let rest = length-filter_all p xs in
      elim (Bool-cases (p x)) [
        | inl e ↦ simp e (omega (arith, rest))
        | inr e ↦ simp e (omega (arith, rest))
      ]

  pub filter-filter :
      (p q : A → Bool) (xs : List A) → filter q (filter p xs) ≡ filter (λ x. p x && q x) xs
  unfolding filter
  filter-filter p q [] = refl
  filter-filter p q (x ∷ xs) = elim (Bool-cases (p x)) [
    | inr e ↦ simp e (filter-filter p q xs)
    | inl e ↦ elim (Bool-cases (q x)) [
      | inl g ↦ simp (e, g) (ap (◌∷◌ x) (filter-filter p q xs))
      | inr g ↦ simp (e, g) (filter-filter p q xs)
    ]
  ]

  pub filter_found :
      (p : A → Bool) (xs : List A) → 0 < length (filter p xs) → (x : A) × (p x ≡ true)
  unfolding filter
  filter_found p [] = λ h. absurd (omega (arith, h))
  filter_found p (x ∷ xs) = elim (Bool-cases (p x)) [
    | inl e ↦ λ h. (x, e)
    | inr e ↦ simp e (filter_found p xs)
  ]

  -- A wider choice twice keeps at least as many.
  pub length-filter_nested :
      (p q r s : A → Bool) (xs : List A)
      → ((x : A) → p x ≡ true → r x ≡ true)
      → ((x : A) → q x ≡ true → s x ≡ true)
      → length (filter q (filter p xs)) ≤ length (filter s (filter r xs))
  length-filter_nested p q r s xs f g =
      rw (filter-filter p q xs, filter-filter r s xs)
        (length-filter_le (λ x. p x && q x) (λ x. r x && s x) xs
          (λ x. and_mono (p x) (q x) (r x) (s x) (f x) (g x)))

abbrev pub is_event : Text → Option Text → Bool
is_event id none = false
is_event id (some key) = text_eq id key

abbrev bump : Bool → ℕ → ℕ
bump true n = suc n
bump false n = n

event_count-count_event :
    (id key : Text) (counts : List (Text × ℕ))
    → event_count id (count_event key counts) ≡ bump (text_eq id key) (event_count id counts)
unfolding event_count count_event
event_count-count_event id key [] = elim (Bool-cases (text_eq id key)) [
  | inl e ↦ simp e refl
  | inr e ↦ simp e refl
]
event_count-count_event id key ((k, n) ∷ counts) = elim (Bool-cases (text_eq key k)) [
  | inl e ↦ rw ((text_eq_iff key k).0 e) (elim (Bool-cases (text_eq id k)) [
    | inl g ↦ simp ((text_eq_iff k k).1 refl, g) refl
    | inr g ↦ simp ((text_eq_iff k k).1 refl, g) refl
  ])
  | inr e ↦ elim (Bool-cases (text_eq id k)) [
    | inl g ↦ simp (e, g, other e g) refl
    | inr g ↦ simp (e, g) (event_count-count_event id key counts)
  ]
]
  where
    other : text_eq key k ≡ false → text_eq id k ≡ true → text_eq id key ≡ false
    other e g = elim (Bool-cases (text_eq id key)) [
      | inr f ↦ f
      | inl f ↦ absurd (
          ground (
            arith,
            e,
            (text_eq_iff key k).1 (sym ((text_eq_iff id key).0 f) ∙ (text_eq_iff id k).0 g),
          ))
    ]

count_if_any_lem :
    (id : Text) (event : Option Text) (counts : List (Text × ℕ))
    → event_count id (count_if_any event counts) ≡ bump (is_event id event) (event_count id counts)
unfolding count_if_any
count_if_any_lem id none counts = refl
count_if_any_lem id (some key) counts = event_count-count_event id key counts

pub count_events_lem :
    (id : Text) (points : List ParsedPoint) (counts : List (Text × ℕ))
    → event_count id (count_events points counts)
      ≡ length (filter (λ p. is_event id p.event) points) + event_count id counts
unfolding count_events filter
count_events_lem id [] counts = omega arith
count_events_lem id (p ∷ points) counts =
    let rest = count_events_lem id points (count_if_any p.event counts) in
    let one = count_if_any_lem id p.event counts in
    elim (Bool-cases (is_event id p.event)) [
      | inl e ↦ simp e (omega (arith, rest, one ∙ ap (λ b. bump b (event_count id counts)) e))
      | inr e ↦ simp e (omega (arith, rest, one ∙ ap (λ b. bump b (event_count id counts)) e))
    ]

-- The event is the event of more than one point.
abbrev pub is_shared : List ParsedPoint → Option Text → Bool
is_shared points none = false
is_shared points (some id) = ltb 1 (length (filter (λ p. is_event id p.event) points))

pub is_ambiguous_lem :
    (points : List ParsedPoint) (event : Option Text)
    → is_ambiguous (count_events points []) event ≡ is_shared points event
unfolding is_ambiguous event_count
is_ambiguous_lem points none = refl
is_ambiguous_lem points (some id) = ap (ltb 1) (omega (arith, count_events_lem id points []))

-- A shared event has more than one point, whose events are shared too.
pub shared_by :
    (points : List ParsedPoint) (event : Option Text)
    → is_shared points event ≡ true
    → 1 < length (filter (λ p. is_shared points p.event) points)
shared_by points none h = absurd (ground (arith, h))
shared_by points (some id) h =
    let more =
      length-filter_le (λ p. is_event id p.event) (λ p. is_shared points p.event) points
        (λ p. same p.event) in
    omega (arith, more, ltb→lt 1 _ h)
  where
    same : (event : Option Text) → is_event id event ≡ true → is_shared points event ≡ true
    same none e = absurd (ground (arith, e))
    same (some key) e = rw (sym ((text_eq_iff id key).0 e)) h

pub not_one_shared :
    (points : List ParsedPoint) → length (filter (λ p. is_shared points p.event) points) ≢ 1
not_one_shared points e =
    let (p, h) = filter_found (λ p. is_shared points p.event) points (omega (arith, e)) in
    absurd (omega (arith, e, shared_by points p.event h))
