-- ===== src/Rtp/Pcapng.antt =====
-- `iter_pcapng_udp_packets` of tools/vocera_media_qoe/vocera_media_qoe.py, with
-- `_pcapng_padded_length`, `_pcapng_ts_resolution` and `_pcapng_options`. The loop over the blocks
-- recurs on fuel, one more than the number of bytes, of which each round takes at least 12, and that
-- over the options of a block likewise, with at least 4. A resolution is kept as the number of ticks
-- in a second, and a time as no seconds and a count of ticks.
mod Tests
pub mod Blocks
pub mod Encode
pub mod Sections
pub mod Reads
pub mod Meaning
use srhc_observability_claud.Prelude.{
  ◌⊎◌, inl, inr, ℕ, zero, suc, ◌+◌, ◌*◌, ◌-◌, ◌%◌, ◌^◌, not, ◌&&◌, Option, none, some, List, [],
  ◌∷◌, ◌++◌, take, drop, length, get_elem?, ltb, leb, ◌==◌, if◌then◌else◌,
}
use srhc_observability_claud.Prelude.Text.{text_eq}
use srhc_observability_claud.Rtp.Frame.{Bytes, slice, Arrival, UdpPacket}
use srhc_observability_claud.Rtp.Capture.{
  Endian, big, little, half, word, PcapError, unsupported_linktype, out_of_fuel,
  truncated_section_header, unsupported_byte_order, block_before_section, invalid_block_length,
  truncated_block, trailer_mismatch, truncated_interface, truncated_packet_block, truncated_packet,
  Packets, error, packets, parse_frame, add_record,
}

-- `PCAPNG_MAGIC`, which reads the same in both byte orders.
abbrev pub pcapng_magic : Bytes
pcapng_magic = 0x0a ∷ 0x0d ∷ 0x0d ∷ 0x0a ∷ []

-- `PCAPNG_BYTE_ORDER_MAGIC`
unfoldable pub byte_order : Bytes → Option Endian
byte_order magic =
    if text_eq magic (0x1a ∷ 0x2b ∷ 0x3c ∷ 0x4d ∷ [])
    then some big
    else if text_eq magic (0x4d ∷ 0x3c ∷ 0x2b ∷ 0x1a ∷ [])
    then some little
    else none

unfoldable pub padded_length : ℕ → ℕ
padded_length length = length + (4 - length % 4) % 4

-- `_pcapng_ts_resolution`: a second has as many ticks.
unfoldable pub ts_resolution : Bytes → ℕ
ts_resolution [] = 1000000
ts_resolution (raw ∷ value) = if leb 128 raw then 2 ^ (raw % 128) else 10 ^ raw

unfoldable pub options_loop : ℕ → Endian → Bytes → List (ℕ × Bytes)
unfolding half padded_length
options_loop zero endian body = []
options_loop (suc fuel) endian body =
    let option_length = half endian body 2 in
    let rest = options_loop fuel endian (drop (4 + padded_length option_length) body) in
    if ltb (length body) 4
    then []
    else if half endian body 0 == 0
    then []
    else if ltb (length body) (4 + option_length)
    then []
    else (half endian body 0, take option_length (drop 4 body)) ∷ rest

unfoldable pub pcapng_options : Endian → Bytes → List (ℕ × Bytes)
unfolding options_loop
pcapng_options endian body = options_loop (suc (length body)) endian body

-- The loop over the options of an interface: the last `if_tsresol` counts.
unfoldable pub resolution_of : ℕ → List (ℕ × Bytes) → ℕ
unfolding ts_resolution
resolution_of resolution [] = resolution
resolution_of resolution (o ∷ options) =
    resolution_of (if o.0 == 9 then ts_resolution o.1 else resolution) options

pub record Interface : Type 0 where
  pub linktype : ℕ
  pub resolution : ℕ

-- The start of a block.
pub record BlockStart : Type 0 where
  pub endian : Endian
  pub block_type : ℕ
  pub total_len : ℕ
  pub interfaces : List Interface

unfoldable pub section_start : Bytes → Option Endian → PcapError ⊎ BlockStart
unfolding word
section_start bytes none = inl unsupported_byte_order
section_start bytes (some endian) = inr (record {
  endian = endian;
  block_type = 0x0A0D0D0A;
  total_len = word endian bytes 4;
  interfaces = [];
})

unfoldable pub other_start : Bytes → Option Endian → List Interface → PcapError ⊎ BlockStart
unfolding word
other_start bytes none interfaces = inl block_before_section
other_start bytes (some endian) interfaces = inr (record {
  endian = endian;
  block_type = word endian bytes 0;
  total_len = word endian bytes 4;
  interfaces = interfaces;
})

unfoldable pub block_start : Option Endian → List Interface → Bytes → PcapError ⊎ BlockStart
unfolding section_start other_start byte_order
block_start endian interfaces bytes =
    if text_eq (take 4 bytes) pcapng_magic
    then (if ltb (length bytes) 28
        then inl truncated_section_header
        else section_start bytes (byte_order (slice bytes 8 12)))
    else other_start bytes endian interfaces

-- What a block does to the state of the loop.
pub data Effect : Type 0 where
  refuse : PcapError → Effect
  skip : Effect
  describe : Interface → Effect
  capture : Option UdpPacket → Effect

unfoldable pub interface_block : Endian → Bytes → Effect
unfolding half pcapng_options resolution_of
interface_block endian body =
    if ltb (length body) 8
    then refuse truncated_interface
    else describe (record {
      linktype = half endian body 0;
      resolution = resolution_of 1000000 (pcapng_options endian (drop 8 body));
    })

-- The frame of a packet block, given its interface.
unfoldable pub packet_of : Endian → Bytes → Option Interface → Effect
unfolding word
packet_of endian body none = refuse unsupported_linktype
packet_of endian body (some interface) =
    let timestamp : Arrival = record {
      ts_sec = 0;
      ts_frac = word endian body 4 * 2 ^ 32 + word endian body 8;
      time_scale = interface.resolution;
    } in
    let frame = take (word endian body 12) (drop 20 body) in
    if not (interface.linktype == 1) && not (interface.linktype == 127)
    then refuse unsupported_linktype
    else capture (parse_frame (interface.linktype == 1) frame timestamp (word endian body 16))

unfoldable pub packet_block : Endian → List Interface → Bytes → Effect
unfolding word packet_of
packet_block endian interfaces body =
    if ltb (length body) 20
    then refuse truncated_packet_block
    else if ltb (length body - 20) (word endian body 12)
    then refuse truncated_packet
    else packet_of endian body (get_elem? interfaces (word endian body 0))

unfoldable pub block_effect : Endian → ℕ → List Interface → Bytes → Effect
unfolding interface_block packet_block
block_effect endian block_type interfaces body =
    if block_type == 1
    then interface_block endian body
    else if block_type == 6
    then packet_block endian interfaces body
    else skip

-- The tests of the lengths, and then the body of the block.
unfoldable pub read_block : BlockStart → Bytes → Effect
unfolding word block_effect
read_block start bytes =
    if ltb start.total_len 12
    then refuse invalid_block_length
    else if ltb (length bytes) start.total_len
    then refuse truncated_block
    else if not (word start.endian bytes (start.total_len - 4) == start.total_len)
    then refuse trailer_mismatch
    else block_effect start.endian start.block_type start.interfaces
        (slice bytes 8 (start.total_len - 4))

-- The rest of the loop after a block, given how it goes on with the interfaces.
unfoldable pub after_block : List Interface → Effect → (List Interface → Packets) → Packets
unfolding add_record
after_block interfaces (refuse e) later = error e
after_block interfaces skip later = later interfaces
after_block interfaces (describe interface) later = later (interfaces ++ interface ∷ [])
after_block interfaces (capture packet) later = add_record packet (later interfaces)

unfoldable pub after_start :
    Bytes → PcapError ⊎ BlockStart → (Endian → List Interface → Bytes → Packets) → Packets
unfolding read_block after_block
after_start bytes (inl e) later = error e
after_start bytes (inr start) later =
    after_block start.interfaces (read_block start bytes)
      (λ interfaces. later start.endian interfaces (drop start.total_len bytes))

-- The loop, from the bytes at the offset.
unfoldable pub read_blocks : ℕ → Option Endian → List Interface → Bytes → Packets
unfolding block_start after_start
read_blocks zero endian interfaces bytes = error out_of_fuel
read_blocks (suc fuel) endian interfaces bytes =
    if ltb (length bytes) 12
    then packets [] 0
    else after_start bytes (block_start endian interfaces bytes)
        (λ next now rest. read_blocks fuel (some next) now rest)

unfoldable pub iter_pcapng_udp_packets : Bytes → Packets
unfolding read_blocks
iter_pcapng_udp_packets bytes = read_blocks (suc (length bytes)) none [] bytes
