-- ===== src/Prelude/Select.antt =====
-- Python's `min(rows, key=...)` over the rows that a comprehension keeps, and what holds of every
-- element of a list.
pub mod Least
use srhc_observability_claud.Prelude.{
  map, ℕ, ◌≤◌, ◌<◌, ◌≡◌, refl, ap, ◌∙◌, ◌⊎◌, inl, inr, Bool, true, false, Option, none, some, List,
  [], ◌∷◌, ◌++◌, arith, ltb, if◌then◌else◌, Bool-cases, lt→ltb, le→ltb, ltb_cases,
}

module _ {ℓ} {A : Type ℓ} where
  -- `[x for x in xs if keep(x)]`
  unfoldable pub filter : (A → Bool) → List A → List A
  filter keep [] = []
  filter keep (x ∷ xs) = let rest = filter keep xs in if keep x then x ∷ rest else rest

  -- `min` keeps the first of the least.
  unfoldable pub min_by : (A → ℕ) → A → List A → A
  min_by key x [] = x
  min_by key x (y ∷ ys) = min_by key (if ltb (key y) (key x) then y else x) ys

  -- `min(xs, key=key)`, or nothing for the empty list, on which `min` raises.
  unfoldable pub first_least : (A → ℕ) → List A → Option A
  unfolding min_by
  first_least key [] = none
  first_least key (x ∷ xs) = some (min_by key x xs)

  -- Every element has the property.
  abbrev pub All {κ} : (A → Type κ) → List A → Type κ
  All P [] = Unit
  All P (x ∷ xs) = P x × All P xs

  -- An element that is kept, with no kept element of a smaller key, and none of the same key
  -- before it.
  pub record IsFirstLeast (keep : A → Bool) (key : A → ℕ) (xs : List A) (m : A) : Type ℓ where
    pub before : List A
    pub after : List A
    pub split : xs ≡ before ++ m ∷ after
    pub is_kept : keep m ≡ true
    pub greater_before : All (λ y. keep y ≡ true → key m < key y) before
    pub none_less_after : All (λ y. keep y ≡ true → key m ≤ key y) after

module _ {ℓ} {A : Type ℓ} where
  pub All-map {κ μ} :
      {P : A → Type κ} {Q : A → Type μ} (xs : List A) → ((x : A) → P x → Q x) → All P xs → All Q xs
  All-map [] f h = tt
  All-map (x ∷ xs) f h = (f x h.0, All-map xs f h.1)

  pub All-append {κ} : (P : A → Type κ) (xs ys : List A) → All P xs → All P ys → All P (xs ++ ys)
  All-append P [] ys h k = k
  All-append P (x ∷ xs) ys h k = (h.0, All-append P xs ys h.1 k)

  pub All-zip {κ μ ν} :
      {P : A → Type κ} {Q : A → Type μ} {R : A → Type ν} (xs : List A)
      → ((x : A) → P x → Q x → R x)
      → All P xs
      → All Q xs
      → All R xs
  All-zip [] f h k = tt
  All-zip (x ∷ xs) f h k = (f x h.0 k.0, All-zip xs f h.1 k.1)

  pub All-const {κ} : (P : A → Type κ) (xs : List A) → ((x : A) → P x) → All P xs
  All-const P [] f = tt
  All-const P (x ∷ xs) f = (f x, All-const P xs f)

  -- What holds of every pair does so in either order.
  pub All-swap {κ μ} :
      {B : Type κ} (Q : A → B → Type μ) (xs : List A) (ys : List B)
      → All (λ y. All (λ x. Q x y) xs) ys
      → All (λ x. All (λ y. Q x y) ys) xs
  All-swap Q xs [] h = All-const (λ x. All (λ y. Q x y) []) xs (λ x. tt)
  All-swap Q xs (y ∷ ys) h = All-zip xs (λ x a b. (a, b)) h.0 (All-swap Q xs ys h.1)

  pub map-All {κ μ} :
      {B : Type κ} (P : B → Type μ) (f : A → B) (xs : List A)
      → All (λ x. P (f x)) xs
      → All P (map f xs)
  map-All P f [] h = tt
  map-All P f (x ∷ xs) h = (h.0, map-All P f xs h.1)

  pub filter-All {κ} :
      (P : A → Type κ) (keep : A → Bool) (xs : List A) → All P xs → All P (filter keep xs)
  unfolding filter
  filter-All P keep [] h = tt
  filter-All P keep (x ∷ xs) h = elim (Bool-cases (keep x)) [
    | inl e ↦ simp e (h.0, filter-All P keep xs h.1)
    | inr e ↦ simp e (filter-All P keep xs h.1)
  ]
