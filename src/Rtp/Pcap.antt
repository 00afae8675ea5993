-- ===== src/Rtp/Pcap.antt =====
-- `iter_pcap_udp_packets`: a classic pcap file is read here, a pcapng file in Rtp/Pcapng. The file is read as bytes; the loop over its
-- records recurs on fuel, one more than the number of bytes, of which each round takes at least 16.
pub mod Records
pub mod Files
mod Tests
use srhc_observability_claud.Prelude.{
  ◌⊎◌, inl, inr, ℕ, zero, suc, ◌+◌, ◌*◌, ◌-◌, Bool, true, false, not, ◌&&◌, ◌||◌, Option, none,
  some, List, [], ◌∷◌, take, drop, length, ltb, ◌==◌, if◌then◌else◌,
}
use srhc_observability_claud.Prelude.Text.{text_eq}
use srhc_observability_claud.Rtp.Frame.{Bytes, Arrival}
use srhc_observability_claud.Rtp.Capture.{
  Endian, big, little, half, word, PcapError, too_short, unsupported_magic, unsupported_version,
  unsupported_linktype, truncated_record, invalid_record, out_of_fuel, Packets, error, packets,
  parse_frame, add_record,
}
use srhc_observability_claud.Rtp.Pcapng.{pcapng_magic, iter_pcapng_udp_packets}

-- `PCAP_MAGIC`
unfoldable pub pcap_magic : Bytes → Option (Endian × ℕ)
pcap_magic magic =
    if text_eq magic (0xa1 ∷ 0xb2 ∷ 0xc3 ∷ 0xd4 ∷ [])
    then some (big, 1000000)
    else if text_eq magic (0xd4 ∷ 0xc3 ∷ 0xb2 ∷ 0xa1 ∷ [])
    then some (little, 1000000)
    else if text_eq magic (0xa1 ∷ 0xb2 ∷ 0x3c ∷ 0x4d ∷ [])
    then some (big, 1000000000)
    else if text_eq magic (0x4d ∷ 0x3c ∷ 0xb2 ∷ 0xa1 ∷ [])
    then some (little, 1000000000)
    else none

-- What the header of the file fixes for its records.
pub record Format : Type 0 where
  pub endian : Endian
  pub time_scale : ℕ
  pub snaplen : ℕ
  pub ethernet : Bool

-- The loop, from the bytes at the offset.
unfoldable pub read_records : ℕ → Format → Bytes → Packets
unfolding word add_record
read_records zero f bytes = error out_of_fuel
read_records (suc fuel) f bytes =
    let incl_len = word f.endian bytes 8 in
    let arrival_time : Arrival = record {
      ts_sec = word f.endian bytes 0;
      ts_frac = word f.endian bytes 4;
      time_scale = f.time_scale;
    } in
    let frame = take incl_len (drop 16 bytes) in
    let packet = parse_frame f.ethernet frame arrival_time (word f.endian bytes 12) in
    let later = read_records fuel f (drop (16 + incl_len) bytes) in
    if ltb (length bytes) 16
    then packets [] 0
    else if ltb (length bytes - 16) incl_len
    then error truncated_record
    else if ltb f.snaplen incl_len
    then error invalid_record
    else add_record packet later

-- The header after the magic: an error, or what it fixes for the records.
unfoldable pub read_header : Bytes → Option (Endian × ℕ) → PcapError ⊎ Format
unfolding half word
read_header bytes none = inl unsupported_magic
read_header bytes (some (endian, time_scale)) =
    let network = word endian bytes 20 in
    if not (half endian bytes 4 == 2) || not (half endian bytes 6 == 4)
    then inl unsupported_version
    else if not (network == 1) && not (network == 127)
    then inl unsupported_linktype
    else inr (record {
      endian = endian;
      time_scale = time_scale;
      snaplen = word endian bytes 16;
      ethernet = network == 1;
    })

unfoldable pub read_file : Bytes → PcapError ⊎ Format → Packets
unfolding read_records
read_file bytes (inl e) = error e
read_file bytes (inr f) = read_records (suc (length bytes)) f (drop 24 bytes)

-- A classic file.
unfoldable pub read_classic : Bytes → Packets
unfolding read_file read_header pcap_magic
read_classic bytes = read_file bytes (read_header bytes (pcap_magic (take 4 bytes)))

unfoldable pub iter_pcap_udp_packets : Bytes → Packets
unfolding read_classic iter_pcapng_udp_packets
iter_pcap_udp_packets bytes =
    if ltb (length bytes) 24
    then error too_short
    else if text_eq (take 4 bytes) pcapng_magic
    then iter_pcapng_udp_packets bytes
    else read_classic bytes
