-- ===== src/Multicast/Mac/Pool.antt =====
-- The MAC addresses of the groups in the default pool, 230.230.0.0/20.
use srhc_observability_claud.Prelude.{
  Bool, ◌≡◌, ◌↔◌, refl, ap, sym, ◌∙◌, ℕ, ◌+◌, ◌-◌, ◌*◌, ◌/◌, ◌%◌, ◌^◌, ◌<◌, ◌≤◌, true, ◌&&◌, leb,
  some, arith,
}
use srhc_observability_claud.Prelude.Text.{Text}
use srhc_observability_claud.Multicast.Mac.{
  first_usable, last_usable, mac_int, ipv4_multicast_to_mac, mac_of, is_in_range, is_in_pool,
  default_pool, first_host, last_host, is_vocera_multicast_mac, join_octets,
}
use srhc_observability_claud.Multicast.Mac.Values.{value_join}

octets_value :
    (l : ℕ)
    → l < 8388608
    → (((((1 * 256 + 0) * 256 + 0x5E) * 256 + l / 65536 % 128) * 256 + l / 256 % 256) * 256
        + l % 256)
      ≡ 0x01005E000000 + l
octets_value l h = omega arith

pub derived :
    (address : ℕ)
    → address / 2 ^ 28 ≡ 14
    → ipv4_multicast_to_mac address
      ≡ some (
          join_octets 0x01 0x00 0x5E
            (address % 2 ^ 23 / 65536 % 128)
            (address % 2 ^ 23 / 256 % 256)
            (address % 2 ^ 23 % 256))
unfolding ipv4_multicast_to_mac
derived address h = simp h

-- The MAC address that ipv4_multicast_to_mac derives for a multicast address, read as a number, is
-- 01:00:5e:00:00:00 with the lower 23 bits of the address.
pub ipv4_multicast_to_mac_value :
    (address : ℕ)
    → address / 2 ^ 28 ≡ 14
    → mac_of address ≡ some (0x01005E000000 + address % 2 ^ 23)
ipv4_multicast_to_mac_value address h =
    let l = address % 2 ^ 23 in
    rw (mac_of, derived address h)
      (value_join 0x01 0x00 0x5E (l / 65536 % 128) (l / 256 % 256) (l % 256) (omega arith)
          (omega arith) (omega arith) (omega arith) (omega arith) (omega arith)
        ∙ ap some (octets_value l (omega arith)))

-- The numbers of the MAC addresses of the first and the last host.
abbrev first_mac : ℕ
first_mac = 0x01005E000000 + 6684673

abbrev last_mac : ℕ
last_mac = 0x01005E000000 + 6688766

pool_range :
    (value : ℕ)
    → is_in_pool (some value) default_pool ≡ some (leb first_mac value && leb value last_mac)
unfolding first_host last_host
pool_range value =
    ap (λ x. is_in_range value x (mac_of 3873837054)) (ipv4_multicast_to_mac_value 3873832961 refl)
    ∙ ap (λ x. is_in_range value (some first_mac) x) (ipv4_multicast_to_mac_value 3873837054 refl)

is_vocera-range :
    (mac : Text) (value : ℕ)
    → mac_int mac ≡ some value
    → is_vocera_multicast_mac mac default_pool ≡ some (leb first_mac value && leb value last_mac)
unfolding is_vocera_multicast_mac
is_vocera-range mac value h = ap (λ v. is_in_pool v default_pool) h ∙ pool_range value

host_value :
    (host : ℕ)
    → 3873832961 ≤ host
    → host ≤ 3873837054
    → mac_of host ≡ some (0x01005E000000 + host % 2 ^ 23)
host_value host l u = ipv4_multicast_to_mac_value host (omega arith)

some_injective : (m n : ℕ) → some m ≡ some n → m ≡ n
some_injective m n h = cc

true_injective : (b : Bool) → some b ≡ some true → b ≡ true
true_injective b h = cc

-- The host whose MAC address has a number in the range.
host_of :
    (value : ℕ)
    → first_mac ≤ value
    → value ≤ last_mac
    → (host : ℕ) × (3873832961 ≤ host) × (host ≤ 3873837054) × (mac_of host ≡ some value)
host_of value l u =
    let host = 3873832960 + (value - 0x01005E000000 - 6684672) in
    let lower : 3873832961 ≤ host = omega arith in
    let upper : host ≤ 3873837054 = omega arith in
    let same : 0x01005E000000 + host % 2 ^ 23 ≡ value = omega arith in
    (host, lower, upper, host_value host lower upper ∙ ap some same)

-- A MAC address is in the range of the default pool exactly if it is derived from an address from
-- 230.230.0.1 to 230.230.15.254.
pub is_vocera_multicast_mac_hosts :
    (mac : Text) (value : ℕ)
    → mac_int mac ≡ some value
    → (is_vocera_multicast_mac mac default_pool ≡ some true)
      ↔ ((host : ℕ) × (first_usable ≤ host) × (host ≤ last_usable) × (mac_of host ≡ some value))
is_vocera_multicast_mac_hosts mac value h =
    let r = is_vocera-range mac value h in
    (
      λ t.
          let b : (leb first_mac value && leb value last_mac) ≡ true =
            true_injective _ (sym r ∙ t) in
          host_of value (ground arith) (ground arith),
      λ w.
          let (host, l, u, m) = w in
          let e : 0x01005E000000 + host % 2 ^ 23 ≡ value =
            some_injective _ value (sym (host_value host l u) ∙ m) in
          r ∙ ap some (ground arith),
    )
