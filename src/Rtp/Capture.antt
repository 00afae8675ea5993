-- ===== src/Rtp/Capture.antt =====
-- What the two capture formats of tools/vocera_media_qoe/vocera_media_qoe.py share: numbers in
-- either byte order, the link types, and the result of `iter_pcap_udp_packets` and
-- `iter_pcapng_udp_packets`.
use srhc_observability_claud.Prelude.{
  ◌≡◌, ℕ, suc, ◌+◌, ◌*◌, Bool, true, false, Option, none, some, List, ◌∷◌,
}
use srhc_observability_claud.Rtp.Frame.{
  Bytes, u16, u32, u16_little, Arrival, UdpPacket, parse_ethernet_udp_frame,
  parse_radiotap_udp_frame,
}

pub data Endian : Type 0 where
  big little : Endian

unfoldable pub half : Endian → Bytes → ℕ → ℕ
unfolding u16 u16_little
half big b i = u16 b i
half little b i = u16_little b i

-- `struct.unpack(f"{endian}I", …)`
unfoldable pub word : Endian → Bytes → ℕ → ℕ
unfolding u32 u16_little
word big b i = u32 b i
word little b i = u16_little b i + u16_little b (i + 2) * 65536

-- The errors that are raised.
pub data PcapError : Type 0 where
  too_short unsupported_magic unsupported_version unsupported_linktype : PcapError
  truncated_record invalid_record out_of_fuel : PcapError
  truncated_section_header unsupported_byte_order block_before_section : PcapError
  invalid_block_length truncated_block trailer_mismatch : PcapError
  truncated_interface truncated_packet_block truncated_packet : PcapError

pub data Packets : Type 0 where
  error : PcapError → Packets
  packets : (udp_packets : List UdpPacket) (packets_read : ℕ) → Packets

abbrev pub parse_frame : Bool → Bytes → Arrival → ℕ → Option UdpPacket
parse_frame true frame arrival_time orig_len = parse_ethernet_udp_frame frame arrival_time orig_len
parse_frame false frame arrival_time orig_len = parse_radiotap_udp_frame frame arrival_time orig_len

abbrev pub add_packet : Option UdpPacket → List UdpPacket → List UdpPacket
add_packet none rest = rest
add_packet (some packet) rest = packet ∷ rest

-- One record before what the later records give.
unfoldable pub add_record : Option UdpPacket → Packets → Packets
add_record packet (error e) = error e
add_record packet (packets udp_packets packets_read) =
    packets (add_packet packet udp_packets) (suc packets_read)

pub add_record-ends :
    (packet : Option UdpPacket) (later : Packets)
    → ¬ (later ≡ error out_of_fuel)
    → ¬ (add_record packet later ≡ error out_of_fuel)
unfolding add_record
add_record-ends packet (error e) h = h
add_record-ends packet (packets ps n) h = λ e. cc
