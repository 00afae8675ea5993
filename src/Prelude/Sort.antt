-- ===== src/Prelude/Sort.antt =====
-- Python's `sorted`, with a test of what is less.
use srhc_observability_claud.Prelude.{
  suc, ◌≡◌, refl, ap, ◌∙◌, Bool, true, false, List, [], ◌∷◌, length, if◌then◌else◌,
}

-- `sorted(values)`, by insertion before what is not less, which keeps the order of equals.
module _ {ℓ} {A : Type ℓ} (less : A → A → Bool) where
  unfoldable pub insert : A → List A → List A
  insert x [] = x ∷ []
  insert x (y ∷ ys) = let rest = insert x ys in if less y x then y ∷ rest else x ∷ y ∷ ys

  unfoldable pub sorted : List A → List A
  unfolding insert
  sorted [] = []
  sorted (x ∷ xs) = insert x (sorted xs)

  length-insert : (x : A) (xs : List A) → length (insert x xs) ≡ suc (length xs)
  unfolding insert
  length-insert x [] = refl
  length-insert x (y ∷ ys) = choose (less y x) (length-insert x ys)
    where
      choose :
          (b : Bool)
          → length (insert x ys) ≡ suc (length ys)
          → length (if b then y ∷ insert x ys else x ∷ y ∷ ys) ≡ suc (suc (length ys))
      choose true e = ap suc e
      choose false e = refl

  pub length-sorted : (xs : List A) → length (sorted xs) ≡ length xs
  unfolding sorted
  length-sorted [] = refl
  length-sorted (x ∷ xs) = length-insert x (sorted xs) ∙ ap suc (length-sorted xs)
