-- ===== src/Rtp/Keys.antt =====
-- The Python sets of `(segment, extended sequence number)` pairs that `rtp_sequence_stats` of
-- tools/vocera_media_qoe/vocera_media_qoe.py keeps, as lists without repetition.
pub mod Laws
use srhc_observability_claud.Prelude.{
  ℕ, zero, suc, ◌+◌, ◌≤◌, ◌<◌, ◌≡◌, refl, Bool, false, ◌&&◌, ◌||◌, List, [], ◌∷◌, arith, ◌==◌,
  if◌then◌else◌,
}
use srhc_observability_claud.Prelude.Int.{ℤ, pos, pos_part, neg_part, ◌+ℤ◌, ◌≤ℤ◌}

abbrev pub eqb_ℤ : ℤ → ℤ → Bool
eqb_ℤ a b = pos_part a + neg_part b == pos_part b + neg_part a

abbrev pub ◌<ℤ◌ : ℤ → ℤ → Type 0
◌<ℤ◌ a b = pos_part a + neg_part b < pos_part b + neg_part a

infix 50 ◌<ℤ◌
pub record Key : Type 0 where
  pub segment : ℕ
  pub ext : ℤ

abbrev pub key_eq : Key → Key → Bool
key_eq j k = j.segment == k.segment && eqb_ℤ j.ext k.ext

-- `key in keys`
abbrev pub contains : Key → List Key → Bool
contains k [] = false
contains k (j ∷ keys) = key_eq j k || contains k keys

-- `keys.add(key)`
unfoldable pub add : Key → List Key → List Key
add k keys = if contains k keys then keys else k ∷ keys

-- `keys.discard(key)`, and `keys.remove(key)` where the key is there
unfoldable pub discard : Key → List Key → List Key
discard k [] = []
discard k (j ∷ keys) = let rest = discard k keys in if key_eq j k then rest else j ∷ rest

-- `for missed in range(first, first + n): keys.add((segment, missed))`
unfoldable pub add_range : ℕ → ℤ → ℕ → List Key → List Key
add_range segment first zero keys = keys
add_range segment first (suc n) keys =
    add_range segment (first +ℤ pos 1) n (add (record { segment = segment; ext = first }) keys)

abbrev pub IsNodup : List Key → Type 0
IsNodup [] = Unit
IsNodup (k ∷ keys) = (contains k keys ≡ false) × IsNodup keys

abbrev pub Disjoint : List Key → List Key → Type 0
Disjoint [] keys = Unit
Disjoint (k ∷ rest) keys = (contains k keys ≡ false) × Disjoint rest keys

-- Nothing lies beyond the highest extended number of the current segment.
abbrev pub Below : ℕ → ℤ → List Key → Type 0
Below segment high [] = Unit
Below segment high (k ∷ keys) =
    (k.segment ≤ segment) × (k.segment ≡ segment → k.ext ≤ℤ high) × Below segment high keys

pub Below-fresh :
    (segment : ℕ) (high : ℤ) (x : ℤ) (keys : List Key)
    → Below segment high keys
    → high <ℤ x
    → contains (record { segment = segment; ext = x }) keys ≡ false
Below-fresh segment high x [] b h = refl
Below-fresh segment high x (k ∷ keys) (le, bound, b) h =
    ground (arith, bound, Below-fresh segment high x keys b h)

pub Below-fresh_segment :
    (segment later : ℕ) (high : ℤ) (x : ℤ) (keys : List Key)
    → Below segment high keys
    → segment < later
    → contains (record { segment = later; ext = x }) keys ≡ false
Below-fresh_segment segment later high x [] b h = refl
Below-fresh_segment segment later high x (k ∷ keys) (le, bound, b) h =
    ground (arith, Below-fresh_segment segment later high x keys b)

pub Below-mono :
    (segment : ℕ) (low high : ℤ) (keys : List Key)
    → Below segment low keys
    → low ≤ℤ high
    → Below segment high keys
Below-mono segment low high [] b h = tt
Below-mono segment low high (k ∷ keys) (le, bound, b) h =
    (le, λ e. omega (arith, bound e), Below-mono segment low high keys b h)

pub Below-next_segment :
    (segment later : ℕ) (low high : ℤ) (keys : List Key)
    → Below segment low keys
    → segment < later
    → Below later high keys
Below-next_segment segment later low high [] b h = tt
Below-next_segment segment later low high (k ∷ keys) (le, bound, b) h =
    (omega arith, λ e. absurd (omega arith), Below-next_segment segment later low high keys b h)
