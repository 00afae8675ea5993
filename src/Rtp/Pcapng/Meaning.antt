-- ===== src/Rtp/Pcapng/Meaning.antt =====
-- `iter_pcap_udp_packets` on whole pcapng files.
use srhc_observability_claud.Prelude.{
  ℕ, zero, suc, ◌≡◌, ◌≢◌, ap, ◌∙◌, ◌<◌, ◌≤◌, true, false, Option, none, some, List, [], ◌∷◌, ◌++◌,
  length, get_elem?, ltb, ◌==◌, arith,
}
use srhc_observability_claud.Rtp.Frame.{Bytes}
use srhc_observability_claud.Rtp.Capture.{Endian, big, little, Packets}
use srhc_observability_claud.Rtp.Pcap.{iter_pcap_udp_packets}
use srhc_observability_claud.Rtp.Pcapng.{
  Interface, block_effect, after_block, read_blocks, iter_pcapng_udp_packets,
}
use srhc_observability_claud.Rtp.Pcapng.Encode.{put_block, length-put_block}
use srhc_observability_claud.Rtp.Pcapng.Sections.{
  Description, Capture, Block, section, interface, packet, other, section_body, interface_body,
  packet_body, put_blocks, interface_of, read_packet, meaning, OtherTypes,
}
use srhc_observability_claud.Rtp.Pcapng.Reads.{
  read_round, block_start-section, block_start-other, packet_block-reads, packet_of-reads,
  interface_block-reads,
}

skips_other :
    (e : Endian) (t : ℕ) (interfaces : List Interface) (body : Bytes)
    (later : List Interface → Packets)
    → t ≢ 1
    → t ≢ 6
    → after_block interfaces (block_effect e t interfaces body) later ≡ later interfaces
unfolding after_block block_effect
skips_other e t interfaces body later h k =
    let a : (t == 1) ≡ false = ground arith in
    let b : (t == 6) ≡ false = ground arith in simp (a, b)

describes_interface :
    (e : Endian) (interfaces : List Interface) (d : Description) (later : List Interface → Packets)
    → after_block interfaces (block_effect e 1 interfaces (interface_body e d)) later
      ≡ later (interfaces ++ interface_of d ∷ [])
unfolding after_block block_effect
describes_interface e interfaces d later = simp (interface_block-reads e d)

captures_packet :
    (e : Endian) (interfaces : List Interface) (c : Capture) (later : List Interface → Packets)
    → after_block interfaces (block_effect e 6 interfaces (packet_body e c)) later
      ≡ read_packet (get_elem? interfaces c.interface_id) c (later interfaces)
unfolding block_effect
captures_packet e interfaces c later =
    ap (λ x. after_block interfaces x later) (packet_block-reads e interfaces c)
    ∙ packet_of-reads e interfaces c (get_elem? interfaces c.interface_id) later

section_round :
    (fuel : ℕ) (o : Option Endian) (interfaces : List Interface) (e : Endian) (rest : Bytes)
    → read_blocks (suc fuel) o interfaces (put_block e 0x0A0D0D0A (section_body e) rest)
      ≡ read_blocks fuel (some e) [] rest
section_round fuel o interfaces e rest =
    read_round fuel o interfaces [] e 0x0A0D0D0A (section_body e) rest
      (block_start-section o interfaces e rest)
    ∙ skips_other e 0x0A0D0D0A [] (section_body e) _ (λ h. absurd (omega arith))
        (λ h. absurd (omega arith))

read_blocks-meaning :
    (fuel : ℕ) (e : Endian) (interfaces : List Interface) (blocks : List Block) (trailer : Bytes)
    → length blocks < fuel
    → length trailer < 12
    → OtherTypes blocks
    → read_blocks fuel (some e) interfaces (put_blocks e blocks trailer) ≡ meaning interfaces blocks
read_blocks-meaning zero e interfaces blocks trailer h l k = absurd (omega arith)
read_blocks-meaning (suc fuel) e interfaces [] trailer h l k =
    let short : ltb (length trailer) 12 ≡ true = ground arith in unfold read_blocks in simp short
read_blocks-meaning (suc fuel) e interfaces (section next ∷ blocks) trailer h l k =
    section_round fuel (some e) interfaces next (put_blocks next blocks trailer)
    ∙ read_blocks-meaning fuel next [] blocks trailer (omega arith) l k
read_blocks-meaning (suc fuel) e interfaces (interface d ∷ blocks) trailer h l k =
    let rest = put_blocks e blocks trailer in
    read_round fuel (some e) interfaces interfaces e 1 (interface_body e d) rest
      (block_start-other e 1 interfaces (interface_body e d) rest (omega arith))
    ∙ describes_interface e interfaces d _
    ∙ read_blocks-meaning fuel e (interfaces ++ interface_of d ∷ []) blocks trailer (omega arith) l
        k
read_blocks-meaning (suc fuel) e interfaces (packet c ∷ blocks) trailer h l k =
    let rest = put_blocks e blocks trailer in
    read_round fuel (some e) interfaces interfaces e 6 (packet_body e c) rest
      (block_start-other e 6 interfaces (packet_body e c) rest (omega arith))
    ∙ captures_packet e interfaces c _
    ∙ ap (read_packet (get_elem? interfaces c.interface_id) c)
        (read_blocks-meaning fuel e interfaces blocks trailer (omega arith) l k)
read_blocks-meaning (suc fuel) e interfaces (other t body ∷ blocks) trailer h l (small, a, b, k) =
    let rest = put_blocks e blocks trailer in
    read_round fuel (some e) interfaces interfaces e t body rest
      (block_start-other e t interfaces body rest small)
    ∙ skips_other e t interfaces body _ a b
    ∙ read_blocks-meaning fuel e interfaces blocks trailer (omega arith) l k

length-put_blocks :
    (e : Endian) (blocks : List Block) (trailer : Bytes)
    → length blocks ≤ length (put_blocks e blocks trailer)
length-put_blocks e [] trailer = omega arith
length-put_blocks e (section next ∷ blocks) trailer = omega (
  arith,
  length-put_blocks next blocks trailer,
  length-put_block next 0x0A0D0D0A (section_body next) (put_blocks next blocks trailer),
)
length-put_blocks e (interface d ∷ blocks) trailer = omega (
  arith,
  length-put_blocks e blocks trailer,
  length-put_block e 1 (interface_body e d) (put_blocks e blocks trailer),
)
length-put_blocks e (packet c ∷ blocks) trailer = omega (
  arith,
  length-put_blocks e blocks trailer,
  length-put_block e 6 (packet_body e c) (put_blocks e blocks trailer),
)
length-put_blocks e (other t body ∷ blocks) trailer = omega (
  arith,
  length-put_blocks e blocks trailer,
  length-put_block e t body (put_blocks e blocks trailer),
)

is_pcapng :
    (e : Endian) (rest : Bytes)
    → let file = put_block e 0x0A0D0D0A (section_body e) rest in
      iter_pcap_udp_packets file ≡ iter_pcapng_udp_packets file
unfolding iter_pcap_udp_packets
is_pcapng big rest =
    let long : ltb (length (put_block big 0x0A0D0D0A (section_body big) rest)) 24 ≡ false =
      ground arith in
    simp long
is_pcapng little rest =
    let long : ltb (length (put_block little 0x0A0D0D0A (section_body little) rest)) 24 ≡ false =
      ground arith in
    simp long

-- iter_pcap_udp_packets reads a pcapng file that starts with a section header and holds sections in
-- either byte order, interface descriptions, packets and blocks of other types below 256, without
-- options but for the time resolution of an interface, and with fewer than 12 bytes after them.
-- Without a packet of an interface that its section does not describe or
-- whose link type is not 1 or 127, it gives the number of packets and, in their order, what the
-- frames hold that are UDP packets, each timed in the ticks of its interface; at the first such
-- packet it gives the error on the link type. The interfaces are those described since the last
-- section header.
pub iter_pcap_udp_packets-meaning :
    (e : Endian) (blocks : List Block) (trailer : Bytes)
    → length trailer < 12
    → OtherTypes blocks
    → iter_pcap_udp_packets (put_blocks e (section e ∷ blocks) trailer) ≡ meaning [] blocks
iter_pcap_udp_packets-meaning e blocks trailer l k =
    let rest = put_blocks e blocks trailer in
    let file = put_block e 0x0A0D0D0A (section_body e) rest in
    is_pcapng e rest
    ∙ unfold iter_pcapng_udp_packets in
      section_round (length file) none [] e rest
      ∙ read_blocks-meaning (length file) e [] blocks trailer
          (omega (
            arith,
            length-put_blocks e blocks trailer,
            length-put_block e 0x0A0D0D0A (section_body e) rest,
          ))
          l k
