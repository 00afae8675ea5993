-- ===== src/Rtp/Frame.antt =====
-- Frames over bytes in tools/vocera_media_qoe/vocera_media_qoe.py: the fields of `struct.unpack`, and
-- the headers of IPv4, UDP, Ethernet and RTP. Bytes are numbers below 256; an index past the end
-- reads 0, and the code reads only where it has compared the length.
pub mod Encode
pub mod Header
pub mod Udp
pub mod Ethernet
use srhc_observability_claud.Prelude.{
  ℕ, ◌+◌, ◌*◌, ◌-◌, ◌/◌, ◌%◌, min, Bool, not, ◌&&◌, ◌||◌, Option, none, some, List, ◌∷◌, take, drop,
  length, get_or, ltb, ◌==◌, if◌then◌else◌,
}

abbrev pub Bytes : Type 0
Bytes = List ℕ

abbrev pub byte : Bytes → ℕ → ℕ
byte b i = get_or b i 0

-- `struct.unpack("!H", b[i:i + 2])` and `"!I"`.
unfoldable pub u16 : Bytes → ℕ → ℕ
u16 b i = byte b i * 256 + byte b (i + 1)

unfoldable pub u32 : Bytes → ℕ → ℕ
unfolding u16
u32 b i = u16 b i * 65536 + u16 b (i + 2)

-- `b[start:end]`
abbrev pub slice : Bytes → ℕ → ℕ → Bytes
slice b start end = take (end - start) (drop start b)

-- The time of a record, as the numbers it is computed from.
pub record Arrival : Type 0 where
  pub ts_sec : ℕ
  pub ts_frac : ℕ
  pub time_scale : ℕ

-- An address is kept as its four numbers.
pub record Ipv4 : Type 0 where
  pub first : ℕ
  pub second : ℕ
  pub third : ℕ
  pub fourth : ℕ

-- `".".join(str(part) for part in b[i:i + 4])`
abbrev pub ipv4_at : Bytes → ℕ → Ipv4
ipv4_at b i = record {
  first = byte b i;
  second = byte b (i + 1);
  third = byte b (i + 2);
  fourth = byte b (i + 3);
}

pub record UdpPacket : Type 0 where
  pub arrival_time : Arrival
  pub src_ip : Ipv4
  pub dst_ip : Ipv4
  pub src_port : ℕ
  pub dst_port : ℕ
  pub dscp : ℕ
  pub payload : Bytes
  pub udp_length : ℕ
  pub orig_len : ℕ

abbrev pub udp_protocol : ℕ
udp_protocol = 17

abbrev pub ipv4_ethertype : ℕ
ipv4_ethertype = 0x0800

-- The UDP header, from the start of the payload of the IPv4 packet to its end.
unfoldable pub parse_udp : Bytes → ℕ → ℕ → Arrival → ℕ → Option UdpPacket
unfolding u16
parse_udp packet start end arrival_time orig_len =
    let udp_length = u16 packet (start + 4) in
    if ltb udp_length 8
    then none
    else some (record {
      arrival_time = arrival_time;
      src_ip = ipv4_at packet 12;
      dst_ip = ipv4_at packet 16;
      src_port = u16 packet start;
      dst_port = u16 packet (start + 2);
      dscp = byte packet 1 / 4;
      payload = slice packet (start + 8) (min (start + udp_length) end);
      udp_length = udp_length;
      orig_len = orig_len;
    })

unfoldable pub parse_ipv4_udp_packet : Bytes → Arrival → ℕ → Option UdpPacket
unfolding parse_udp u16
parse_ipv4_udp_packet packet arrival_time orig_len =
    let ihl = byte packet 0 % 16 * 4 in
    let end = min (u16 packet 2) (length packet) in
    if ltb (length packet) 20
    then none
    else if not (byte packet 0 / 16 == 4) || ltb ihl 20 || ltb (length packet) ihl
    then none
    else if not (byte packet 9 == udp_protocol) || not (u16 packet 6 % 8192 == 0)
    then none
    else if ltb end (ihl + 8)
    then none
    else parse_udp packet ihl end arrival_time orig_len

-- `ethertype in VLAN_ETHERTYPES`
abbrev pub is_vlan : ℕ → Bool
is_vlan ethertype = ethertype == 0x8100 || ethertype == 0x88A8 || ethertype == 0x9100

-- The loop over VLAN tags: the bytes from the cursor when the last ethertype is IPv4.
unfoldable pub skip_tags : ℕ → Bytes → Option Bytes
skip_tags ethertype (a ∷ b ∷ c ∷ d ∷ rest) =
    let inner = skip_tags (c * 256 + d) rest in
    if is_vlan ethertype
    then inner
    else if ethertype == ipv4_ethertype
    then some (a ∷ b ∷ c ∷ d ∷ rest)
    else none
skip_tags ethertype rest =
    if is_vlan ethertype then none else if ethertype == ipv4_ethertype then some rest else none

abbrev pub parse_ipv4_from : Option Bytes → Arrival → ℕ → Option UdpPacket
parse_ipv4_from none arrival_time orig_len = none
parse_ipv4_from (some packet) arrival_time orig_len =
    parse_ipv4_udp_packet packet arrival_time orig_len

unfoldable pub parse_ethernet_udp_frame : Bytes → Arrival → ℕ → Option UdpPacket
unfolding skip_tags u16
parse_ethernet_udp_frame frame arrival_time orig_len =
    if ltb (length frame) 14
    then none
    else parse_ipv4_from (skip_tags (u16 frame 12) (drop 14 frame)) arrival_time orig_len

-- `struct.unpack("<H", …)`
unfoldable pub u16_little : Bytes → ℕ → ℕ
u16_little b i = byte b i + byte b (i + 1) * 256

-- Bit `k` of a number, and the length of the 802.11 header that the frame control gives.
abbrev pub bit : ℕ → ℕ → Bool
bit n weight = n / weight % 2 == 1

unfoldable pub header_len_of : ℕ → ℕ
header_len_of frame_control =
    24
    + (if bit frame_control 0x0100 && bit frame_control 0x0200 then 6 else 0)
    + (if bit frame_control 0x0080 then 2 else 0)

-- The LLC and SNAP header.
unfoldable pub parse_llc : Bytes → ℕ → Arrival → ℕ → Option UdpPacket
unfolding u16
parse_llc frame llc_start arrival_time orig_len =
    if ltb (length frame) (llc_start + 8)
    then none
    else if byte frame llc_start == 0xAA
        && byte frame (llc_start + 1) == 0xAA
        && byte frame (llc_start + 2) == 0x03
        && u16 frame (llc_start + 6) == ipv4_ethertype
    then parse_ipv4_udp_packet (drop (llc_start + 8) frame) arrival_time orig_len
    else none

unfoldable pub parse_radiotap_udp_frame : Bytes → Arrival → ℕ → Option UdpPacket
unfolding parse_llc header_len_of u16_little
parse_radiotap_udp_frame frame arrival_time orig_len =
    let radiotap_len = u16_little frame 2 in
    let frame_control = u16_little frame radiotap_len in
    if ltb (length frame) 8
    then none
    else if not (byte frame 0 == 0) || ltb radiotap_len 8 || ltb (length frame) (radiotap_len + 24)
    then none
    else if not (frame_control / 4 % 4 == 2) || bit frame_control 0x4000
    then none
    else parse_llc frame (radiotap_len + header_len_of frame_control) arrival_time orig_len

pub record RtpHeader : Type 0 where
  pub payload_type : ℕ
  pub marker : ℕ
  pub sequence : ℕ
  pub timestamp : ℕ
  pub ssrc : ℕ
  pub header_len : ℕ

-- The check of the padding and the fields, once the length of the header is known.
unfoldable pub rtp_fields : Bytes → ℕ → Option RtpHeader
unfolding u16 u32
rtp_fields payload header_len =
    if bit (byte payload 0) 32
      && ltb (length payload - header_len) (byte payload (length payload - 1))
    then none
    else some (record {
      payload_type = byte payload 1 % 128;
      marker = byte payload 1 / 128;
      sequence = u16 payload 2;
      timestamp = u32 payload 4;
      ssrc = u32 payload 8;
      header_len = header_len;
    })

-- The header extension.
unfoldable pub rtp_extension : Bytes → ℕ → Option RtpHeader
unfolding rtp_fields u16
rtp_extension payload header_len =
    let extended = header_len + 4 + 4 * u16 payload (header_len + 2) in
    if not (bit (byte payload 0) 16)
    then rtp_fields payload header_len
    else if ltb (length payload) (header_len + 4)
    then none
    else if ltb (length payload) extended
    then none
    else rtp_fields payload extended

unfoldable pub parse_rtp_header : Bytes → Option RtpHeader
unfolding rtp_extension
parse_rtp_header payload =
    let header_len = 12 + 4 * (byte payload 0 % 16) in
    if ltb (length payload) 12
    then none
    else if not (byte payload 0 / 64 == 2)
    then none
    else if ltb (length payload) header_len
    then none
    else rtp_extension payload header_len
