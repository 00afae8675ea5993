-- ===== src/Rtp/Pcapng/Blocks.antt =====
-- The loops of the pcapng reader end, and how long a padded option is.
use srhc_observability_claud.Prelude.{
  get_elem?, le→ltb, lt→ltb, ltb_cases, ℕ, zero, suc, ◌≡◌, ◌+◌, ◌-◌, ◌%◌, ◌≤◌, ◌<◌, ◌⊎◌, inl, inr,
  Bool, true, false, Option, none, some, List, [], ◌∷◌, ◌++◌, drop, length, length-drop,
  if◌then◌else◌, arith,
}
use srhc_observability_claud.Rtp.Frame.{Bytes, slice, UdpPacket}
use srhc_observability_claud.Rtp.Capture.{
  Endian, word, PcapError, out_of_fuel, Packets, error, add_record-ends, truncated_section_header,
  invalid_block_length, truncated_block, trailer_mismatch, truncated_interface,
  truncated_packet_block, truncated_packet, unsupported_linktype,
}
use srhc_observability_claud.Rtp.Pcapng.{
  Interface, BlockStart, Effect, refuse, skip, describe, capture, padded_length, section_start,
  other_start, block_start, byte_order, interface_block, packet_of, packet_block, block_effect,
  read_block, after_block, after_start, read_blocks, iter_pcapng_udp_packets,
}

-- _pcapng_padded_length gives a multiple of four that is at least the length and less than four
-- more.
padded_length_bounds :
    (n : ℕ) → (padded_length n % 4 ≡ 0) × (n ≤ padded_length n) × (padded_length n < n + 4)
unfolding padded_length
padded_length_bounds n = omega arith

-- A failure other than that of the fuel.
abbrev IsHonest : PcapError → Type 0
IsHonest e = ¬ (e ≡ out_of_fuel)

data Fine : Effect → Type 0 where
  fails : {e : PcapError} → IsHonest e → Fine (refuse e)
  skips : Fine skip
  describes : {interface : Interface} → Fine (describe interface)
  captures : {packet : Option UdpPacket} → Fine (capture packet)

if-Fine : (b : Bool) (x y : Effect) → Fine x → Fine y → Fine (if b then x else y)
if-Fine true x y h k = h
if-Fine false x y h k = k

guard-Fine :
    (b : Bool) (e : PcapError) (y : Effect) → IsHonest e → Fine y → Fine (if b then refuse e else y)
guard-Fine true e y h k = fails h
guard-Fine false e y h k = k

packet_of-Fine : (e : Endian) (body : Bytes) (o : Option Interface) → Fine (packet_of e body o)
unfolding packet_of
packet_of-Fine e body none = fails (λ h. cc)
packet_of-Fine e body (some interface) = guard-Fine _ unsupported_linktype _ (λ h. cc) captures

packet_block-Fine :
    (e : Endian) (interfaces : List Interface) (body : Bytes)
    → Fine (packet_block e interfaces body)
unfolding packet_block
packet_block-Fine e interfaces body =
    guard-Fine _ truncated_packet_block _ (λ h. cc)
      (guard-Fine _ truncated_packet _ (λ h. cc)
        (packet_of-Fine e body (get_elem? interfaces (word e body 0))))

interface_block-Fine : (e : Endian) (body : Bytes) → Fine (interface_block e body)
unfolding interface_block
interface_block-Fine e body = guard-Fine _ truncated_interface _ (λ h. cc) describes

block_effect-Fine :
    (e : Endian) (t : ℕ) (interfaces : List Interface) (body : Bytes)
    → Fine (block_effect e t interfaces body)
unfolding block_effect
block_effect-Fine e t interfaces body =
    if-Fine _ _ _ (interface_block-Fine e body)
      (if-Fine _ _ _ (packet_block-Fine e interfaces body) skips)

read_block-Fine : (start : BlockStart) (bytes : Bytes) → Fine (read_block start bytes)
unfolding read_block
read_block-Fine start bytes =
    guard-Fine _ invalid_block_length _ (λ h. cc)
      (guard-Fine _ truncated_block _ (λ h. cc)
        (guard-Fine _ trailer_mismatch _ (λ h. cc)
          (block_effect-Fine start.endian start.block_type start.interfaces
            (slice bytes 8 (start.total_len - 4)))))

data FineStart : PcapError ⊎ BlockStart → Type 0 where
  refuses : {e : PcapError} → IsHonest e → FineStart (inl e)
  starts : {start : BlockStart} → FineStart (inr start)

if-FineStart :
    (b : Bool) (x y : PcapError ⊎ BlockStart)
    → FineStart x
    → FineStart y
    → FineStart (if b then x else y)
if-FineStart true x y h k = h
if-FineStart false x y h k = k

section_start-Fine : (bytes : Bytes) (o : Option Endian) → FineStart (section_start bytes o)
unfolding section_start
section_start-Fine bytes none = refuses (λ h. cc)
section_start-Fine bytes (some e) = starts

other_start-Fine :
    (bytes : Bytes) (o : Option Endian) (interfaces : List Interface)
    → FineStart (other_start bytes o interfaces)
unfolding other_start
other_start-Fine bytes none interfaces = refuses (λ h. cc)
other_start-Fine bytes (some e) interfaces = starts

block_start-Fine :
    (o : Option Endian) (interfaces : List Interface) (bytes : Bytes)
    → FineStart (block_start o interfaces bytes)
unfolding block_start
block_start-Fine o interfaces bytes =
    if-FineStart _ _ _
      (if-FineStart _ _ _ (refuses {e = truncated_section_header} (λ h. cc))
        (section_start-Fine bytes (byte_order (slice bytes 8 12))))
      (other_start-Fine bytes o interfaces)

error_injective : (e d : PcapError) → error e ≡ error d → e ≡ d
error_injective e d h = cc

after_block-ends :
    (interfaces : List Interface) (x : Effect) (later : List Interface → Packets)
    → Fine x
    → ((now : List Interface) → ¬ (later now ≡ error out_of_fuel))
    → ¬ (after_block interfaces x later ≡ error out_of_fuel)
unfolding after_block
after_block-ends interfaces (refuse e) later (fails h) k = λ p. h (error_injective e out_of_fuel p)
after_block-ends interfaces skip later h k = k interfaces
after_block-ends interfaces (describe i) later h k = k (interfaces ++ i ∷ [])
after_block-ends interfaces (capture packet) later h k =
    add_record-ends packet (later interfaces) (k interfaces)

read_block-short :
    (start : BlockStart) (bytes : Bytes)
    → start.total_len < 12
    → read_block start bytes ≡ refuse invalid_block_length
unfolding read_block
read_block-short start bytes h = simp (lt→ltb start.total_len 12 h)

after_start-ends :
    (bytes : Bytes) (start : PcapError ⊎ BlockStart)
    (later : Endian → List Interface → Bytes → Packets)
    → FineStart start
    → 12 ≤ length bytes
    → ((e : Endian) (now : List Interface) (rest : Bytes)
        → length rest < length bytes
        → ¬ (later e now rest ≡ error out_of_fuel))
    → ¬ (after_start bytes start later ≡ error out_of_fuel)
unfolding after_start
after_start-ends bytes (inl e) later (refuses h) l k = λ p. h (error_injective e out_of_fuel p)
after_start-ends bytes (inr start) later h l k = elim (ltb_cases start.total_len 12) [
  | inl s ↦ rw (read_block-short start bytes s) (λ p. cc)
  | inr s ↦
      after_block-ends start.interfaces (read_block start bytes) _ (read_block-Fine start bytes)
        (λ now.
          k start.endian now (drop start.total_len bytes)
            (omega (arith, length-drop start.total_len bytes)))
]

read_blocks-ends :
    (fuel : ℕ) (endian : Option Endian) (interfaces : List Interface) (bytes : Bytes)
    → length bytes < fuel
    → ¬ (read_blocks fuel endian interfaces bytes ≡ error out_of_fuel)
unfolding read_blocks
read_blocks-ends zero endian interfaces bytes h = absurd (omega arith)
read_blocks-ends (suc fuel) endian interfaces bytes h = elim (ltb_cases (length bytes) 12) [
  | inl s ↦ simp (lt→ltb (length bytes) 12 s) (λ p. cc)
  | inr s ↦ simp (le→ltb (length bytes) 12 s) (
      after_start-ends bytes (block_start endian interfaces bytes) _
        (block_start-Fine endian interfaces bytes) s
        (λ e now rest l. read_blocks-ends fuel (some e) now rest (omega arith)))
]

-- The loop of iter_pcapng_udp_packets has fuel enough for any bytes.
pub iter_pcapng_udp_packets_ends :
    (bytes : Bytes) → ¬ (iter_pcapng_udp_packets bytes ≡ error out_of_fuel)
unfolding iter_pcapng_udp_packets
iter_pcapng_udp_packets_ends bytes =
    read_blocks-ends (suc (length bytes)) none [] bytes (omega arith)
