-- ===== src/Prelude/Select/Least.antt =====
-- The least of the rows that are kept is what `min` finds, and the least of images.
use srhc_observability_claud.Prelude.Select.{filter, min_by, first_least, All, IsFirstLeast}
use srhc_observability_claud.Prelude.{
  map, ℕ, ◌≤◌, ◌<◌, ◌≡◌, refl, ap, ◌∙◌, ◌⊎◌, inl, inr, Bool, true, false, Option, none, some, List,
  [], ◌∷◌, ◌++◌, arith, ltb, if◌then◌else◌, Bool-cases, lt→ltb, le→ltb, ltb_cases,
}

module _ {ℓ} {A : Type ℓ} (keep : A → Bool) (key : A → ℕ) where
  -- A head that is not kept, or is greater, is one more element before.
  behind :
      (y : A) (ys : List A) (m : A)
      → (keep y ≡ true → key m < key y)
      → IsFirstLeast keep key ys m
      → IsFirstLeast keep key (y ∷ ys) m
  behind y ys m h f = record {
    before = y ∷ f.before;
    after = f.after;
    split = ap (◌∷◌ y) f.split;
    is_kept = f.is_kept;
    greater_before = (h, f.greater_before);
    none_less_after = f.none_less_after;
  }

  abbrev NotLess : A → List A → Type 0
  NotLess x xs = All (λ y. keep y ≡ true → key x ≤ key y) xs

  in_front :
      (y : A) (ys : List A) (m : A)
      → m ≡ y
      → keep y ≡ true
      → NotLess y ys
      → IsFirstLeast keep key (y ∷ ys) m
  in_front y ys m q e h = rw q (record {
    before = [];
    after = ys;
    split = refl;
    is_kept = e;
    greater_before = tt;
    none_less_after = h;
  })

  least : A → List A → A
  unfolding min_by filter
  least x xs = min_by key x (filter keep xs)

  filter_kept : (y : A) (ys : List A) → keep y ≡ true → filter keep (y ∷ ys) ≡ y ∷ filter keep ys
  unfolding filter
  filter_kept y ys e = simp e

  least_skip : (x y : A) (ys : List A) → keep y ≡ false → least x (y ∷ ys) ≡ least x ys
  unfolding least
  least_skip x y ys e = simp e

  least_take :
      (x y : A) (ys : List A) → keep y ≡ true → key y < key x → least x (y ∷ ys) ≡ least y ys
  unfolding least
  least_take x y ys e l =
      ap (min_by key x) (filter_kept y ys e)
      ∙ ap (λ b. min_by key (if b then y else x) (filter keep ys)) (lt→ltb (key y) (key x) l)

  least_stay :
      (x y : A) (ys : List A) → keep y ≡ true → key x ≤ key y → least x (y ∷ ys) ≡ least x ys
  unfolding least
  least_stay x y ys e l =
      ap (min_by key x) (filter_kept y ys e)
      ∙ ap (λ b. min_by key (if b then y else x) (filter keep ys)) (le→ltb (key y) (key x) l)

  abbrev Beats : A → List A → A → Type ℓ
  Beats x xs m = ((m ≡ x) × NotLess x xs) ⊎ (IsFirstLeast keep key xs m × (key m < key x))

  least_split : (x : A) (xs : List A) → Beats x xs (least x xs)
  unfolding least
  least_split x [] = inl (refl, tt)
  least_split x (y ∷ ys) = elim (Bool-cases (keep y)) [
    | inr e ↦ rw (least_skip x y ys e) (skip (least x ys) e (least_split x ys))
    | inl e ↦ elim (ltb_cases (key y) (key x)) [
      | inl l ↦ rw (least_take x y ys e l) (take (least y ys) e l (least_split y ys))
      | inr l ↦ rw (least_stay x y ys e l) (stay (least x ys) e l (least_split x ys))
    ]
  ]
    where
      skip : (m : A) → keep y ≡ false → Beats x ys m → Beats x (y ∷ ys) m
      skip m e (inl (q, h)) = inl (q, (λ k. absurd (ground (arith, e, k)), h))
      skip m e (inr (f, l)) = inr (behind y ys m (λ k. absurd (ground (arith, e, k))) f, l)

      take : (m : A) → keep y ≡ true → key y < key x → Beats y ys m → Beats x (y ∷ ys) m
      take m e l (inl (q, h)) = inr (in_front y ys m q e h, rw q l)
      take m e l (inr (f, n)) = inr (behind y ys m (λ _. n) f, omega arith)

      stay : (m : A) → keep y ≡ true → key x ≤ key y → Beats x ys m → Beats x (y ∷ ys) m
      stay m e l (inl (q, h)) = inl (q, (λ _. l, h))
      stay m e l (inr (f, n)) = inr (behind y ys m (λ _. omega arith) f, n)

  -- Nothing less among the rest: the minimum stays where it is.
  least_same : (x : A) (xs : List A) → NotLess x xs → least x xs ≡ x
  unfolding least
  least_same x [] h = refl
  least_same x (y ∷ ys) h = elim (Bool-cases (keep y)) [
    | inr e ↦ least_skip x y ys e ∙ least_same x ys h.1
    | inl e ↦ least_stay x y ys e (h.0 e) ∙ least_same x ys h.1
  ]

  least_reach :
      (x m : A) (before after : List A)
      → keep m ≡ true
      → key m < key x
      → All (λ y. keep y ≡ true → key m < key y) before
      → NotLess m after
      → least x (before ++ m ∷ after) ≡ m
  unfolding least
  least_reach x m [] after e l h k = least_take x m after e l ∙ least_same m after k
  least_reach x m (y ∷ ys) after e l h k = elim (Bool-cases (keep y)) [
    | inr g ↦ least_skip x y _ g ∙ least_reach x m ys after e l h.1 k
    | inl g ↦ elim (ltb_cases (key y) (key x)) [
      | inl n ↦ least_take x y _ g n ∙ least_reach y m ys after e (h.0 g) h.1 k
      | inr n ↦ least_stay x y _ g n ∙ least_reach x m ys after e l h.1 k
    ]
  ]

  first : List A → Option A
  unfolding first_least filter
  first xs = first_least key (filter keep xs)

  first_skip : (x : A) (xs : List A) → keep x ≡ false → first (x ∷ xs) ≡ first xs
  unfolding first
  first_skip x xs e = simp e

  first_start : (x : A) (xs : List A) → keep x ≡ true → first (x ∷ xs) ≡ some (least x xs)
  unfolding first least
  first_start x xs e = simp e

  pub data First : List A → Option A → Type ℓ where
    nothing : {xs : List A} → All (λ x. keep x ≡ false) xs → First xs none
    found : {xs : List A} {m : A} → IsFirstLeast keep key xs m → First xs (some m)

  pub first_least_lem : (xs : List A) → First xs (first_least key (filter keep xs))
  unfolding first
  first_least_lem [] = nothing tt
  first_least_lem (x ∷ xs) = elim (Bool-cases (keep x)) [
    | inr e ↦ rw (first_skip x xs e) (skip (first xs) e (first_least_lem xs))
    | inl e ↦ rw (first_start x xs e) (found (start (least x xs) e (least_split x xs)))
  ]
    where
      skip : (o : Option A) → keep x ≡ false → First xs o → First (x ∷ xs) o
      skip none e (nothing h) = nothing (e, h)
      skip (some m) e (found f) = found (behind x xs m (λ k. absurd (ground (arith, e, k))) f)

      start : (m : A) → keep x ≡ true → Beats x xs m → IsFirstLeast keep key (x ∷ xs) m
      start m e (inl (q, h)) = in_front x xs m q e h
      start m e (inr (f, l)) = behind x xs m (λ _. l) f

  first_reach :
      (m : A) (before after : List A)
      → keep m ≡ true
      → All (λ y. keep y ≡ true → key m < key y) before
      → NotLess m after
      → first (before ++ m ∷ after) ≡ some m
  first_reach m [] after e h k = first_start m after e ∙ ap some (least_same m after k)
  first_reach m (y ∷ ys) after e h k = elim (Bool-cases (keep y)) [
    | inr g ↦ first_skip y _ g ∙ first_reach m ys after e h.1 k
    | inl g ↦ first_start y _ g ∙ ap some (least_reach y m ys after e (h.0 g) h.1 k)
  ]

  first_none : (xs : List A) → All (λ x. keep x ≡ false) xs → first xs ≡ none
  unfolding first
  first_none [] h = refl
  first_none (x ∷ xs) h = first_skip x xs h.0 ∙ first_none xs h.1

  -- The relation has one result.
  pub First-unique :
      (xs : List A) (o : Option A) → First xs o → first_least key (filter keep xs) ≡ o
  unfolding first
  First-unique xs none (nothing h) = first_none xs h
  First-unique xs (some m) (found f) =
      rw f.split (first_reach m f.before f.after f.is_kept f.greater_before f.none_less_after)

module _ {ℓ κ} {A : Type ℓ} {B : Type κ} (f : A → B) where
  abbrev pub image : Option A → Option B
  image none = none
  image (some a) = some (f a)

-- The least of the images is the image of the least.
module _ {ℓ κ} {A : Type ℓ} {B : Type κ} (f : A → B) (keep : B → Bool) (key : B → ℕ) where
  choose_image : (b : Bool) (x y : A) → (if b then f y else f x) ≡ f (if b then y else x)
  choose_image true x y = refl
  choose_image false x y = refl

  filter-map : (xs : List A) → filter keep (map f xs) ≡ map f (filter (λ x. keep (f x)) xs)
  unfolding filter
  filter-map [] = refl
  filter-map (x ∷ xs) = elim (Bool-cases (keep (f x))) [
    | inl e ↦ simp e (ap (◌∷◌ (f x)) (filter-map xs))
    | inr e ↦ simp e (filter-map xs)
  ]

  min_by-map :
      (x : A) (xs : List A) → min_by key (f x) (map f xs) ≡ f (min_by (λ a. key (f a)) x xs)
  unfolding min_by
  min_by-map x [] = refl
  min_by-map x (y ∷ ys) =
      ap (λ z. min_by key z (map f ys)) (choose_image (ltb (key (f y)) (key (f x))) x y)
      ∙ min_by-map (if ltb (key (f y)) (key (f x)) then y else x) ys

  least_image :
      (xs : List A) → first_least key (map f xs) ≡ image f (first_least (λ a. key (f a)) xs)
  unfolding first_least
  least_image [] = refl
  least_image (x ∷ xs) = ap some (min_by-map x xs)

  pub first_least-map :
      (xs : List A)
      → first_least key (filter keep (map f xs))
        ≡ image f (first_least (λ a. key (f a)) (filter (λ a. keep (f a)) xs))
  first_least-map xs = ap (first_least key) (filter-map xs) ∙ least_image _
