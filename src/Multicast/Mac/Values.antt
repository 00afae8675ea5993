-- ===== src/Multicast/Mac/Values.antt =====
-- MAC addresses as texts and as numbers.
use srhc_observability_claud.Prelude.{
  ◌≡◌, refl, ap, ◌∙◌, ℕ, ◌+◌, ◌*◌, ◌/◌, ◌%◌, ◌<◌, true, false, ◌==◌, some, [], ◌∷◌, length, map,
  arith,
}
use srhc_observability_claud.Prelude.Text.{Text}
use srhc_observability_claud.Multicast.Mac.{
  is_hex, keep_hex, lower, with_colons, normalize_mac, hex_value, from_hex, without_colons, int_of,
  mac_int, hex_digit, put_octet, join_octets,
}

is_hex_digit : (n : ℕ) → n < 16 → is_hex (hex_digit n) ≡ true
unfolding is_hex hex_digit
is_hex_digit n h = ground arith

lower_digit : (n : ℕ) → n < 16 → lower (hex_digit n) ≡ hex_digit n
unfolding lower hex_digit
lower_digit n h = ground arith

value_digit : (n : ℕ) → n < 16 → hex_value (hex_digit n) ≡ n
unfolding hex_value hex_digit
value_digit n h = ground arith

digit_no_colon : (n : ℕ) → n < 16 → (hex_digit n == 58) ≡ false
unfolding hex_digit
digit_no_colon n h = ground arith

keep_octet :
    (o : ℕ) (rest : Text) → o < 256 → keep_hex (put_octet o rest) ≡ put_octet o (keep_hex rest)
unfolding keep_hex
keep_octet o rest h =
    simp (is_hex_digit (o / 16) (omega arith), is_hex_digit (o % 16) (omega arith))

without_octet :
    (o : ℕ) (rest : Text)
    → o < 256
    → without_colons (put_octet o rest) ≡ put_octet o (without_colons rest)
unfolding without_colons
without_octet o rest h =
    simp (digit_no_colon (o / 16) (omega arith), digit_no_colon (o % 16) (omega arith))

lower_octet :
    (o : ℕ) (rest : Text)
    → o < 256
    → map lower rest ≡ rest
    → map lower (put_octet o rest) ≡ put_octet o rest
lower_octet o rest h e =
    simp (lower_digit (o / 16) (omega arith), lower_digit (o % 16) (omega arith), e)

two_digits :
    (n o : ℕ)
    → o < 256
    → (n * 16 + hex_value (hex_digit (o / 16))) * 16 + hex_value (hex_digit (o % 16)) ≡ n * 256 + o
two_digits n o h =
    rw (value_digit (o / 16) (omega arith), value_digit (o % 16) (omega arith)) (omega arith)

from_octet :
    (n o : ℕ) (rest : Text) → o < 256 → from_hex n (put_octet o rest) ≡ from_hex (n * 256 + o) rest
unfolding from_hex
from_octet n o rest h = ap (λ m. from_hex m rest) (two_digits n o h)

from_end : (n : ℕ) → from_hex n [] ≡ n
unfolding from_hex
from_end n = refl

keep_colon :
    (o : ℕ) (rest : Text)
    → o < 256
    → keep_hex (put_octet o (58 ∷ rest)) ≡ put_octet o (keep_hex rest)
unfolding keep_hex is_hex
keep_colon o rest h = keep_octet o (58 ∷ rest) h

without_colon :
    (o : ℕ) (rest : Text)
    → o < 256
    → without_colons (put_octet o (58 ∷ rest)) ≡ put_octet o (without_colons rest)
unfolding without_colons
without_colon o rest h = without_octet o (58 ∷ rest) h

normalize_token :
    (value token : Text)
    → keep_hex value ≡ token
    → (length token == 12) ≡ true
    → normalize_mac value ≡ some (with_colons (map lower token))
unfolding normalize_mac
normalize_token value token e l = simp (e, l)

keep_end : (o : ℕ) → o < 256 → keep_hex (put_octet o []) ≡ put_octet o []
unfolding keep_hex
keep_end o h = keep_octet o [] h

without_end : (o : ℕ) → o < 256 → without_colons (put_octet o []) ≡ put_octet o []
unfolding without_colons
without_end o h = without_octet o [] h

abbrev digits : ℕ → ℕ → ℕ → ℕ → ℕ → ℕ → Text
digits a b c d e f =
    put_octet a (put_octet b (put_octet c (put_octet d (put_octet e (put_octet f [])))))

join_digits : (a b c d e f : ℕ) → with_colons (digits a b c d e f) ≡ join_octets a b c d e f
unfolding with_colons
join_digits a b c d e f = refl

value_of :
    (value normalized : Text)
    → normalize_mac value ≡ some normalized
    → mac_int value ≡ some (from_hex 0 (without_colons normalized))
unfolding mac_int
value_of value normalized h = ap int_of h

module _ (a b c d e f : ℕ) (ha : a < 256) (hb : b < 256) (hc : c < 256) (hd : d < 256)
    (he : e < 256) (hf : f < 256) where
  keep_join : keep_hex (join_octets a b c d e f) ≡ digits a b c d e f
  keep_join =
      keep_colon a _ ha
      ∙ ap (put_octet a) (
          keep_colon b _ hb
          ∙ ap (put_octet b) (
              keep_colon c _ hc
              ∙ ap (put_octet c) (
                  keep_colon d _ hd
                  ∙ ap (put_octet d) (keep_colon e _ he ∙ ap (put_octet e) (keep_end f hf)))))

  without_join : without_colons (join_octets a b c d e f) ≡ digits a b c d e f
  without_join =
      without_colon a _ ha
      ∙ ap (put_octet a) (
          without_colon b _ hb
          ∙ ap (put_octet b) (
              without_colon c _ hc
              ∙ ap (put_octet c) (
                  without_colon d _ hd
                  ∙ ap (put_octet d) (without_colon e _ he ∙ ap (put_octet e) (without_end f hf)))))

  lower-digits : map lower (digits a b c d e f) ≡ digits a b c d e f
  lower-digits = lower_octet a _ ha (
      lower_octet b _ hb
        (lower_octet c _ hc (lower_octet d _ hd (lower_octet e _ he (lower_octet f [] hf refl)))))

  pub normalize_join : normalize_mac (join_octets a b c d e f) ≡ some (join_octets a b c d e f)
  normalize_join =
      normalize_token (join_octets a b c d e f) (digits a b c d e f) keep_join refl
      ∙ ap (λ t. some (with_colons t)) lower-digits
      ∙ ap some (join_digits a b c d e f)

  from_digits :
      from_hex 0 (digits a b c d e f)
      ≡ from_hex (((((a * 256 + b) * 256 + c) * 256 + d) * 256 + e) * 256 + f) []
  from_digits =
      let after_a = put_octet b (put_octet c (put_octet d (put_octet e (put_octet f [])))) in
      let start : 0 * 256 + a ≡ a = omega arith in
      from_octet 0 a after_a ha
      ∙ ap (λ n. from_hex n after_a) start
      ∙ from_octet _ b _ hb
      ∙ from_octet _ c _ hc
      ∙ from_octet _ d _ hd
      ∙ from_octet _ e _ he
      ∙ from_octet _ f [] hf

  pub value_join :
      mac_int (join_octets a b c d e f)
      ≡ some (((((a * 256 + b) * 256 + c) * 256 + d) * 256 + e) * 256 + f)
  value_join =
      value_of (join_octets a b c d e f) (join_octets a b c d e f) normalize_join
      ∙ ap (λ t. some (from_hex 0 t)) without_join
      ∙ ap some (from_digits ∙ from_end _)
