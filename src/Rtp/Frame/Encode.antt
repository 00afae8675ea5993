-- ===== src/Rtp/Frame/Encode.antt =====
-- Byte encodings of the formats that the parsers read, for statements on round trips.
use srhc_observability_claud.Prelude.{
  refl, ap, sym, ◌∙◌, [], ◌++◌, length, take, drop, zero, suc, ◌≡◌, ℕ, ◌+◌, ◌*◌, ◌/◌, ◌%◌, ◌∷◌,
  arith,
}
use srhc_observability_claud.Rtp.Frame.{Bytes}

-- The bytes of a 16-bit and a 32-bit number, the high one first, before `rest`.
abbrev pub put16 : ℕ → Bytes → Bytes
put16 n rest = n / 256 ∷ n % 256 ∷ rest

abbrev pub put32 : ℕ → Bytes → Bytes
put32 n rest = put16 (n / 65536) (put16 (n % 65536) rest)

pub put16_value : (n : ℕ) → n / 256 * 256 + n % 256 ≡ n
put16_value n = omega arith

pub put32_value :
    (n : ℕ)
    → (n / 65536 / 256 * 256 + n / 65536 % 256) * 65536 + (n % 65536 / 256 * 256 + n % 65536 % 256)
      ≡ n
put32_value n = omega arith

pub take_prefix : (xs ys : Bytes) → take (length xs) (xs ++ ys) ≡ xs
take_prefix [] ys = refl
take_prefix (x ∷ xs) ys = rw (take_prefix xs ys)

pub drop_prefix : (xs ys : Bytes) → drop (length xs) (xs ++ ys) ≡ ys
drop_prefix [] ys = refl
drop_prefix (x ∷ xs) ys = drop_prefix xs ys

drop_nothing : (n : ℕ) → drop {A = ℕ} n [] ≡ []
drop_nothing zero = refl
drop_nothing (suc n) = refl

pub drop_add : (m n : ℕ) (xs : Bytes) → drop (m + n) xs ≡ drop n (drop m xs)
drop_add zero n xs = let e : zero + n ≡ n = omega arith in ap (λ k. drop k xs) e
drop_add (suc m) n [] =
    let e : suc m + n ≡ suc (m + n) = omega arith in ap (λ k. drop k []) e ∙ sym (drop_nothing n)
drop_add (suc m) n (x ∷ xs) =
    let e : suc m + n ≡ suc (m + n) = omega arith in ap (λ k. drop k (x ∷ xs)) e ∙ drop_add m n xs
