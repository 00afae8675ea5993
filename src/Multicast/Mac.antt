-- ===== src/Multicast/Mac.antt =====
-- MAC addresses of multicast groups: `normalize_mac`, `ipv4_multicast_to_mac`, `_mac_int` and the tests
-- on the pool in vocera_multicast.py. An IPv4 address is its number and a network is its first
-- address with the number of its addresses, so what Python's ipaddress refuses to parse is left out.
pub mod Values
pub mod Pool
pub mod Mapping
use srhc_observability_claud.Prelude.{
  ℕ, ◌+◌, ◌-◌, ◌*◌, ◌/◌, ◌%◌, ◌^◌, Bool, false, ◌&&◌, ◌||◌, leb, ltb, ◌==◌, Option, none, some, [],
  ◌∷◌, length, map, if◌then◌else◌,
}
use srhc_observability_claud.Prelude.Text.{Text, text_eq}

-- `[0-9A-Fa-f]`
abbrev pub between : ℕ → ℕ → ℕ → Bool
between low high c = leb low c && leb c high

unfoldable pub is_hex : ℕ → Bool
is_hex c = between 48 57 c || between 65 70 c || between 97 102 c

-- `re.sub(r"[^0-9A-Fa-f]", "", value)`
unfoldable pub keep_hex : Text → Text
unfolding is_hex
keep_hex [] = []
keep_hex (c ∷ rest) = let kept = keep_hex rest in if is_hex c then c ∷ kept else kept

-- `lower()` on hexadecimal digits
unfoldable pub lower : ℕ → ℕ
lower c = if between 65 70 c then c + 32 else c

-- `":".join` of the pairs
unfoldable pub with_colons : Text → Text
with_colons (a ∷ b ∷ c ∷ rest) = a ∷ b ∷ 58 ∷ with_colons (c ∷ rest)
with_colons token = token

unfoldable pub normalize_mac : Text → Option Text
unfolding keep_hex lower with_colons
normalize_mac value =
    let token = keep_hex value in
    if length token == 12 then some (with_colons (map lower token)) else none

-- The value of a lower-case hexadecimal digit, and `int(…, 16)`.
unfoldable pub hex_value : ℕ → ℕ
hex_value c = if leb c 57 then c - 48 else c - 87

unfoldable pub from_hex : ℕ → Text → ℕ
unfolding hex_value
from_hex n [] = n
from_hex n (c ∷ rest) = from_hex (n * 16 + hex_value c) rest

-- `replace(":", "")`
unfoldable pub without_colons : Text → Text
without_colons [] = []
without_colons (c ∷ rest) = let kept = without_colons rest in if c == 58 then kept else c ∷ kept

abbrev pub int_of : Option Text → Option ℕ
int_of none = none
int_of (some normalized) = some (from_hex 0 (without_colons normalized))

unfoldable pub mac_int : Text → Option ℕ
unfolding normalize_mac from_hex without_colons
mac_int value = int_of (normalize_mac value)

-- `f"{octet:02x}"`
unfoldable pub hex_digit : ℕ → ℕ
hex_digit n = if ltb n 10 then 48 + n else 87 + n

abbrev pub put_octet : ℕ → Text → Text
put_octet octet rest = hex_digit (octet / 16) ∷ hex_digit (octet % 16) ∷ rest

abbrev pub join_octets : ℕ → ℕ → ℕ → ℕ → ℕ → ℕ → Text
join_octets a b c d e f = put_octet a (
    58 ∷ put_octet b (58 ∷ put_octet c (58 ∷ put_octet d (58 ∷ put_octet e (58 ∷ put_octet f [])))))

-- `is_multicast`: the addresses from 224.0.0.0 on, of which there are 2^28.
abbrev pub is_multicast : ℕ → Bool
is_multicast address = address / 2 ^ 28 == 14

-- `none` is the ValueError.
unfoldable pub ipv4_multicast_to_mac : ℕ → Option Text
unfolding hex_digit
ipv4_multicast_to_mac address =
    let lower_23 = address % 2 ^ 23 in
    if is_multicast address
    then some (
        join_octets 0x01 0x00 0x5E (lower_23 / 65536 % 128) (lower_23 / 256 % 256) (lower_23 % 256))
    else none

pub record Network : Type 0 where
  pub network_address : ℕ
  pub num_addresses : ℕ

-- `DEFAULT_VOCERA_MULTICAST_CIDR`, 230.230.0.0/20
abbrev pub default_pool : Network
default_pool = record { network_address = 230 * 16777216 + 230 * 65536; num_addresses = 4096 }

-- `DEFAULT_FIRST_USABLE` and `DEFAULT_LAST_USABLE`, 230.230.0.1 and 230.230.15.254
abbrev pub first_usable : ℕ
first_usable = 230 * 16777216 + 230 * 65536 + 1

abbrev pub last_usable : ℕ
last_usable = 230 * 16777216 + 230 * 65536 + 15 * 256 + 254

unfoldable pub is_vocera_multicast_ip : ℕ → Network → Bool
is_vocera_multicast_ip address pool =
    leb pool.network_address address && ltb address (pool.network_address + pool.num_addresses)

-- The first and the last of `network.hosts()`: a network of more than two addresses has neither its
-- first nor its last one.
unfoldable pub first_host : Network → ℕ
first_host pool =
    if ltb 2 pool.num_addresses then pool.network_address + 1 else pool.network_address

unfoldable pub last_host : Network → ℕ
last_host pool =
    if ltb 2 pool.num_addresses
    then pool.network_address + pool.num_addresses - 2
    else pool.network_address + pool.num_addresses - 1

abbrev pub mac_of : ℕ → Option ℕ
mac_of address = elim (ipv4_multicast_to_mac address) [ none ↦ none | some mac ↦ mac_int mac ]

-- A pool of other addresses has no MAC addresses: `none` is the ValueError that the derivation
-- raises.
abbrev pub is_in_range : ℕ → Option ℕ → Option ℕ → Option Bool
is_in_range value (some start) (some end) = some (leb start value && leb value end)
is_in_range value _ _ = none

abbrev pub is_in_pool : Option ℕ → Network → Option Bool
is_in_pool none pool = some false
is_in_pool (some value) pool =
    is_in_range value (mac_of (first_host pool)) (mac_of (last_host pool))

unfoldable pub is_vocera_multicast_mac : Text → Network → Option Bool
unfolding mac_int ipv4_multicast_to_mac first_host last_host
is_vocera_multicast_mac mac pool = is_in_pool (mac_int mac) pool

-- `normalized == ipv4_multicast_to_mac(ip)`
abbrev pub same_mac : Option Text → Option Text → Bool
same_mac (some normalized) (some derived) = text_eq normalized derived
same_mac _ _ = false

unfoldable pub validate_ip_mac_mapping : ℕ → Text → Bool
unfolding normalize_mac ipv4_multicast_to_mac
validate_ip_mac_mapping address mac = same_mac (normalize_mac mac) (ipv4_multicast_to_mac address)
