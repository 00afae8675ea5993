-- ===== src/Rtp/Frame/Udp.antt =====
-- `parse_ipv4_udp_packet` and the frames around it: what is accepted, and what is read from an
-- encoded packet.
use srhc_observability_claud.Prelude.{
  if◌then◌else◌, not, ◌||◌, ◌≡◌, ℕ, ◌+◌, ◌-◌, ◌*◌, ◌/◌, ◌%◌, ◌<◌, ◌≤◌, min, Option, none, some, ◌∷◌,
  ◌++◌, arith, length, length-append, length-take, length-drop, false, ltb, ◌==◌, take, drop,
}
use srhc_observability_claud.Rtp.Frame.{
  Ipv4, Bytes, byte, slice, u16, Arrival, UdpPacket, parse_udp, parse_ipv4_udp_packet,
}
use srhc_observability_claud.Rtp.Frame.Encode.{take_prefix, put16, put16_value}

length-slice :
    (b : Bytes) (start end : ℕ) → length (slice b start end) ≡ min (end - start) (length b - start)
length-slice b start end =
    ground (arith, length-take (end - start) (drop start b), length-drop start b)

parse_udp-bounds :
    (packet : Bytes) (start end : ℕ) (t : Arrival) (n : ℕ) (u : UdpPacket)
    → start + 8 ≤ end
    → end ≤ length packet
    → parse_udp packet start end t n ≡ some u
    → (8 ≤ u.udp_length)
      × (length u.payload + 8 ≤ u.udp_length)
      × (start + 8 + length u.payload ≤ end)
unfolding parse_udp
parse_udp-bounds packet start end t n u h k e =
    ground (arith, length-slice packet (start + 8) (min (start + u16 packet (start + 4)) end))

-- The checks of the IPv4 header, on its numbers.
ipv4_guards :
    (len version ihl protocol fragment end : ℕ) (rest : Option UdpPacket) (u : UdpPacket)
    → (if ltb len 20
        then none
        else if not (version == 4) || ltb ihl 20 || ltb len ihl
        then none
        else if not (protocol == 17) || not (fragment == 0)
        then none
        else if ltb end (ihl + 8)
        then none
        else rest)
      ≡ some u
    → (version ≡ 4) × (protocol ≡ 17) × (fragment ≡ 0) × (ihl + 8 ≤ end) × (rest ≡ some u)
ipv4_guards len version ihl protocol fragment end rest u e = ground arith

-- If parse_ipv4_udp_packet returns a packet, then it is of version 4 with protocol 17, not a later
-- fragment, the UDP length is at least 8, the payload is not longer than the UDP length says, and
-- it lies after both headers, inside the total length and inside the bytes.
parse_ipv4_udp_packet_bounds :
    (packet : Bytes) (t : Arrival) (n : ℕ) (u : UdpPacket)
    → parse_ipv4_udp_packet packet t n ≡ some u
    → (byte packet 0 / 16 ≡ 4)
      × (byte packet 9 ≡ 17)
      × (u16 packet 6 % 8192 ≡ 0)
      × (8 ≤ u.udp_length)
      × (length u.payload + 8 ≤ u.udp_length)
      × (byte packet 0 % 16 * 4 + 8 + length u.payload ≤ u16 packet 2)
      × (byte packet 0 % 16 * 4 + 8 + length u.payload ≤ length packet)
unfolding parse_ipv4_udp_packet
parse_ipv4_udp_packet_bounds packet t n u e =
    let end = min (u16 packet 2) (length packet) in
    let ihl = byte packet 0 % 16 * 4 in
    let (v, p, f, m, r) =
      ipv4_guards (length packet) (byte packet 0 / 16) ihl (byte packet 9) (u16 packet 6 % 8192) end
        (parse_udp packet ihl end t n) u e in
    let (x, y, z) = parse_udp-bounds packet ihl end t n u m (omega arith) r in
    (v, p, f, x, y, omega (arith, z), omega (arith, z))

take_exactly : (xs ys : Bytes) (n : ℕ) → n ≡ length xs → take n (xs ++ ys) ≡ xs
take_exactly xs ys n h = rw h (take_prefix xs ys)

abbrev put_ip : Ipv4 → Bytes → Bytes
put_ip ip rest = ip.first ∷ ip.second ∷ ip.third ∷ ip.fourth ∷ rest

-- The bytes of a packet without IPv4 options, for the payload and the ports of `u`, before a
-- trailer such as the padding of an Ethernet frame.
abbrev pub ipv4_udp_packet : UdpPacket → ℕ → ℕ → ℕ → ℕ → ℕ → Bytes → Bytes
ipv4_udp_packet u ecn ident ttl ip_checksum udp_checksum trailer =
    0x45
    ∷ (u.dscp * 4 + ecn)
    ∷ put16 (20 + u.udp_length) (
        put16 ident (
          0x40
          ∷ 0
          ∷ ttl
          ∷ 17
          ∷ put16 ip_checksum (
              put_ip u.src_ip (
                put_ip u.dst_ip (
                  put16 u.src_port (
                    put16 u.dst_port
                      (put16 u.udp_length (put16 udp_checksum (u.payload ++ trailer)))))))))

-- A packet of the fields of `u` with an IPv4 header of 20 bytes, and with any marks, identification,
-- checksums and trailer, is read back as exactly `u`: the trailer does not get into the payload.
pub parse_ipv4_udp_packet_reads :
    (u : UdpPacket) (ecn ident ttl ip_checksum udp_checksum : ℕ) (trailer : Bytes)
    → u.udp_length ≡ 8 + length u.payload
    → ecn < 4
    → parse_ipv4_udp_packet
        (ipv4_udp_packet u ecn ident ttl ip_checksum udp_checksum trailer)
        u.arrival_time
        u.orig_len
      ≡ some u
unfolding parse_ipv4_udp_packet parse_udp u16
parse_ipv4_udp_packet_reads u ecn ident ttl k l trailer n m =
    let packet = ipv4_udp_packet u ecn ident ttl k l trailer in
    let end = min (20 + u.udp_length) (length packet) in
    let long : ltb (length packet) 20 ≡ false = ground arith in
    let enough : ltb end 28 ≡ false = ground (arith, length-append u.payload trailer) in
    let udp : ltb u.udp_length 8 ≡ false = ground arith in
    let marks : (u.dscp * 4 + ecn) / 4 ≡ u.dscp = omega arith in
    let content : take (min (20 + u.udp_length) end - 28) (u.payload ++ trailer) ≡ u.payload =
      take_exactly u.payload trailer (min (20 + u.udp_length) end - 28)
        (ground (arith, length-append u.payload trailer)) in
    simp (
      put16_value (20 + u.udp_length),
      put16_value u.src_port,
      put16_value u.dst_port,
      put16_value u.udp_length,
      long,
      enough,
      udp,
      marks,
      content,
    )
