-- ===== src/Rtp/Keys/Laws.antt =====
-- Laws of the key sets: membership, sizes, repetition and bounds after each set operation.
use srhc_observability_claud.Prelude.{
  ℕ, zero, suc, ◌+◌, ◌≤◌, ◌≡◌, refl, sym, ap, ◌∙◌, Bool, true, false, not, ◌&&◌, ◌||◌, List, [],
  ◌∷◌, length, arith, Bool-cases, inl, inr,
}
use srhc_observability_claud.Prelude.Int.{ℤ, pos, ◌+ℤ◌, ◌≤ℤ◌, int_laws, +ℤ_parts}
use srhc_observability_claud.Rtp.Keys.{
  Key, key_eq, contains, add, discard, add_range, IsNodup, Disjoint, Below, ◌<ℤ◌, Below-fresh,
  Below-mono,
}

pub key_eq_refl : (k : Key) → key_eq k k ≡ true
key_eq_refl k = ground arith

pub contains-congr :
    (j k : Key) (keys : List Key) → key_eq j k ≡ true → contains j keys ≡ contains k keys
contains-congr j k [] h = refl
contains-congr j k (i ∷ keys) h = ground (arith, contains-congr j k keys)

pub contains-add :
    (j k : Key) (keys : List Key) → contains j (add k keys) ≡ (key_eq k j || contains j keys)
unfolding add
contains-add j k keys = ground (arith, contains-congr k j keys)

key_eq-congr : (i k j : Key) → key_eq i k ≡ true → key_eq i j ≡ key_eq k j
key_eq-congr i k j h = ground arith

key_eq_apart : (i k j : Key) → key_eq i k ≡ false → key_eq i j ≡ true → key_eq k j ≡ false
key_eq_apart i k j h e = ground arith

and_absorb : (a b : Bool) → (not a && b) ≡ (not a && (a || b))
and_absorb true b = refl
and_absorb false b = refl

or_under_and : (a b c : Bool) → (b ≡ true → a ≡ false) → (b || (not a && c)) ≡ (not a && (b || c))
or_under_and true true c h = cc (h refl)
or_under_and true false c h = refl
or_under_and false true c h = refl
or_under_and false false c h = refl

pub contains-discard :
    (j k : Key) (keys : List Key)
    → contains j (discard k keys) ≡ (not (key_eq k j) && contains j keys)
unfolding discard
contains-discard j k [] = ground arith
contains-discard j k (i ∷ keys) = elim (Bool-cases (key_eq i k)) [
  | inl e ↦ rw e (
      contains-discard j k keys
      ∙ and_absorb (key_eq k j) (contains j keys)
      ∙ ap (λ (b : Bool). not (key_eq k j) && (b || contains j keys)) (sym (key_eq-congr i k j e)))
  | inr e ↦ rw e (
      ap (λ (b : Bool). key_eq i j || b) (contains-discard j k keys)
      ∙ or_under_and (key_eq k j) (key_eq i j) (contains j keys) (key_eq_apart i k j e))
]

pub length-add_fresh :
    (k : Key) (keys : List Key) → contains k keys ≡ false → length (add k keys) ≡ length keys + 1
unfolding add
length-add_fresh k keys h = ground arith

pub add-IsNodup : (k : Key) (keys : List Key) → IsNodup keys → IsNodup (add k keys)
unfolding add
add-IsNodup k keys h = elim (Bool-cases (contains k keys)) [ inl e ↦ rw e h | inr e ↦ rw e (e, h) ]

pub discard-IsNodup : (k : Key) (keys : List Key) → IsNodup keys → IsNodup (discard k keys)
unfolding discard
discard-IsNodup k [] h = tt
discard-IsNodup k (j ∷ keys) (fresh, h) = elim (Bool-cases (key_eq j k)) [
  | inl e ↦ rw e (discard-IsNodup k keys h)
  | inr e ↦ rw e (ground (arith, contains-discard j k keys), discard-IsNodup k keys h)
]

pub discard-Below :
    (k : Key) (segment : ℕ) (high : ℤ) (keys : List Key)
    → Below segment high keys
    → Below segment high (discard k keys)
unfolding discard
discard-Below k segment high [] h = tt
discard-Below k segment high (j ∷ keys) (le, bound, h) = elim (Bool-cases (key_eq j k)) [
  | inl e ↦ rw e (discard-Below k segment high keys h)
  | inr e ↦ rw e (le, bound, discard-Below k segment high keys h)
]

pub add-Below :
    (k : Key) (segment : ℕ) (high : ℤ) (keys : List Key)
    → k.segment ≤ segment
    → (k.segment ≡ segment → k.ext ≤ℤ high)
    → Below segment high keys
    → Below segment high (add k keys)
unfolding add
add-Below k segment high keys le bound h = elim (Bool-cases (contains k keys)) [
  | inl e ↦ rw e h
  | inr e ↦ rw e (le, bound, h)
]

-- A key that leaves the missing set and enters the seen set keeps the two apart.
pub Disjoint-claim :
    (k : Key) (missing seen : List Key)
    → Disjoint missing seen
    → Disjoint (discard k missing) (add k seen)
unfolding discard
Disjoint-claim k [] seen h = tt
Disjoint-claim k (j ∷ missing) seen (fresh, h) = elim (Bool-cases (key_eq j k)) [
  | inl e ↦ rw e (Disjoint-claim k missing seen h)
  | inr e ↦ rw e (ground (arith, contains-add j k seen), Disjoint-claim k missing seen h)
]

pub Disjoint-add :
    (k : Key) (missing seen : List Key)
    → contains k missing ≡ false
    → Disjoint missing seen
    → Disjoint missing (add k seen)
Disjoint-add k [] seen n h = tt
Disjoint-add k (j ∷ missing) seen n (fresh, h) =
    (ground (arith, contains-add j k seen), Disjoint-add k missing seen (ground arith) h)

add-Disjoint :
    (k : Key) (missing seen : List Key)
    → contains k seen ≡ false
    → Disjoint missing seen
    → Disjoint (add k missing) seen
unfolding add
add-Disjoint k missing seen n h = elim (Bool-cases (contains k missing)) [
  | inl e ↦ rw e h
  | inr e ↦ rw e (n, h)
]

pub add_range-IsNodup :
    (segment : ℕ) (first : ℤ) (n : ℕ) (keys : List Key)
    → IsNodup keys
    → IsNodup (add_range segment first n keys)
unfolding add_range
add_range-IsNodup segment first zero keys h = h
add_range-IsNodup segment first (suc n) keys h =
    add_range-IsNodup segment (first +ℤ pos 1) n
      (add (record { segment = segment; ext = first }) keys)
      (add-IsNodup (record { segment = segment; ext = first }) keys h)

-- Numbers above everything that was seen are not among the seen.
pub add_range-Disjoint :
    (segment : ℕ) (high first : ℤ) (n : ℕ) (missing seen : List Key)
    → Below segment high seen
    → high <ℤ first
    → Disjoint missing seen
    → Disjoint (add_range segment first n missing) seen
unfolding add_range
add_range-Disjoint segment high first zero missing seen b lt h = h
add_range-Disjoint segment high first (suc n) missing seen b lt h =
    add_range-Disjoint segment high (first +ℤ pos 1) n
      (add (record { segment = segment; ext = first }) missing) seen b
      (omega (int_laws, +ℤ_parts first (pos 1)))
      (add-Disjoint (record { segment = segment; ext = first }) missing seen
        (Below-fresh segment high first seen b lt) h)

pub add_range-Below :
    (segment : ℕ) (first high : ℤ) (n : ℕ) (keys : List Key)
    → first +ℤ pos n ≤ℤ high +ℤ pos 1
    → Below segment high keys
    → Below segment high (add_range segment first n keys)
unfolding add_range
add_range-Below segment first high zero keys le h = h
add_range-Below segment first high (suc n) keys le h =
    add_range-Below segment (first +ℤ pos 1) high n
      (add (record { segment = segment; ext = first }) keys) (omega int_laws)
      (add-Below (record { segment = segment; ext = first }) segment high keys (omega arith)
        (λ e. omega int_laws) h)

-- A range above a bound of the set adds as many keys as it is long.
pub length-add_range :
    (segment : ℕ) (low first : ℤ) (n : ℕ) (keys : List Key)
    → Below segment low keys
    → low <ℤ first
    → length (add_range segment first n keys) ≡ length keys + n
unfolding add_range
length-add_range segment low first zero keys b lt = omega arith
length-add_range segment low first (suc n) keys b lt =
    let k : Key = record { segment = segment; ext = first } in
    omega (
      arith,
      length-add_range segment first (first +ℤ pos 1) n (add k keys)
          (add-Below k segment first keys (omega arith) (λ e. omega arith)
            (Below-mono segment low first keys b (omega arith)))
          (omega int_laws),
      length-add_fresh k keys (Below-fresh segment low first keys b lt),
    )

-- A key that is not in a set is not discarded from it.
pub discard-fresh : (k : Key) (keys : List Key) → contains k keys ≡ false → discard k keys ≡ keys
unfolding discard
discard-fresh k [] h = refl
discard-fresh k (j ∷ keys) h = ground (arith, discard-fresh k keys)

-- A key that is in a set without repetition counts for one.
pub length-discard :
    (k : Key) (keys : List Key)
    → IsNodup keys
    → contains k keys ≡ true
    → length (discard k keys) + 1 ≡ length keys
unfolding discard
length-discard k [] n h = absurd (cc)
length-discard k (j ∷ keys) (fresh, n) h = elim (Bool-cases (key_eq j k)) [
  | inl e ↦ rw e (rw (discard-fresh k keys (ground (arith, contains-congr j k keys))) (omega arith))
  | inr e ↦ rw e (omega (arith, length-discard k keys n (ground arith)))
]

pub Disjoint-contains :
    (k : Key) (missing seen : List Key)
    → Disjoint missing seen
    → contains k missing ≡ true
    → contains k seen ≡ false
Disjoint-contains k [] seen h c = absurd (cc)
Disjoint-contains k (j ∷ missing) seen (fresh, h) c = elim (Bool-cases (key_eq j k)) [
  | inl e ↦ rw (← contains-congr j k seen e) fresh
  | inr e ↦ Disjoint-contains k missing seen h (rw e at c)
]
