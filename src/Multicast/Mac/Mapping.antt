-- ===== src/Multicast/Mac/Mapping.antt =====
-- `validate_ip_mac_mapping` on derived addresses.
use mathlib.Core.Path.{subst}
use srhc_observability_claud.Prelude.{
  ◌≡◌, ◌↔◌, ap, sym, ◌∙◌, ℕ, ◌+◌, ◌/◌, ◌%◌, ◌^◌, true, none, some, arith,
}
use srhc_observability_claud.Prelude.Text.{Text, text_eq, text_eq_iff}
use srhc_observability_claud.Multicast.Mac.{
  mac_int, ipv4_multicast_to_mac, normalize_mac, validate_ip_mac_mapping, same_mac, join_octets,
}
use srhc_observability_claud.Multicast.Mac.Values.{normalize_join}
use srhc_observability_claud.Multicast.Mac.Pool.{derived, ipv4_multicast_to_mac_value}

-- The text that is derived for a multicast address.
abbrev derived_mac : ℕ → Text
derived_mac address =
    let l = address % 2 ^ 23 in
    join_octets 0x01 0x00 0x5E (l / 65536 % 128) (l / 256 % 256) (l % 256)

derived-normalize : (address : ℕ) → normalize_mac (derived_mac address) ≡ some (derived_mac address)
derived-normalize address =
    let l = address % 2 ^ 23 in
    normalize_join 0x01 0x00 0x5E (l / 65536 % 128) (l / 256 % 256) (l % 256) (omega arith)
      (omega arith) (omega arith) (omega arith) (omega arith) (omega arith)

validate_derived :
    (x y : ℕ)
    → x / 2 ^ 28 ≡ 14
    → validate_ip_mac_mapping x (derived_mac y) ≡ text_eq (derived_mac y) (derived_mac x)
unfolding validate_ip_mac_mapping
validate_derived x y hx =
    ap (λ n. same_mac n (ipv4_multicast_to_mac x)) (derived-normalize y)
    ∙ ap (λ d. same_mac (some (derived_mac y)) d) (derived x hx)

derived_value :
    (x : ℕ) → x / 2 ^ 28 ≡ 14 → mac_int (derived_mac x) ≡ some (0x01005E000000 + x % 2 ^ 23)
derived_value x h =
    sym (ap (λ o. elim o [ none ↦ none | some mac ↦ mac_int mac ]) (derived x h))
    ∙ ipv4_multicast_to_mac_value x h

lower_bits : (m n : ℕ) → some (0x01005E000000 + m) ≡ some (0x01005E000000 + n) → m ≡ n
lower_bits m n h = let e : 0x01005E000000 + m ≡ 0x01005E000000 + n = cc in omega arith

some_text : (s t : Text) → some s ≡ some t → s ≡ t
some_text s t h = cc

-- validate_ip_mac_mapping accepts, for a multicast address, the MAC address that is derived from
-- another one exactly if the two agree in their lower 23 bits.
pub validate_ip_mac_mapping_classes :
    (x y : ℕ) (mac : Text)
    → x / 2 ^ 28 ≡ 14
    → y / 2 ^ 28 ≡ 14
    → ipv4_multicast_to_mac y ≡ some mac
    → (validate_ip_mac_mapping x mac ≡ true) ↔ (x % 2 ^ 23 ≡ y % 2 ^ 23)
validate_ip_mac_mapping_classes x y mac hx hy m =
    let e : derived_mac y ≡ mac = some_text (derived_mac y) mac (sym (derived y hy) ∙ m) in
    subst (λ t. (validate_ip_mac_mapping x t ≡ true) ↔ (x % 2 ^ 23 ≡ y % 2 ^ 23)) e
      (
        λ v.
            let same =
              (text_eq_iff (derived_mac y) (derived_mac x)).0 (sym (validate_derived x y hx) ∙ v) in
            sym (
              lower_bits (y % 2 ^ 23) (x % 2 ^ 23)
                (sym (derived_value y hy) ∙ ap mac_int same ∙ derived_value x hx)),
        λ s.
            validate_derived x y hx
            ∙ (text_eq_iff (derived_mac y) (derived_mac x)).1 (
                ap (λ l. join_octets 0x01 0x00 0x5E (l / 65536 % 128) (l / 256 % 256) (l % 256))
                  (sym s)),
      )
