-- ===== src/Rtp/Pcapng/Tests.antt =====
-- A pcapng file of two sections, one in each byte order.
use srhc_observability_claud.Prelude.{◌≡◌, refl, some, List, [], ◌∷◌, arith}
use srhc_observability_claud.Rtp.Frame.{
  Arrival, UdpPacket, u16, parse_udp, parse_ipv4_udp_packet, parse_ethernet_udp_frame, skip_tags,
}
use srhc_observability_claud.Rtp.Frame.Encode.{put16}
use srhc_observability_claud.Rtp.Frame.Udp.{ipv4_udp_packet}
use srhc_observability_claud.Rtp.Frame.Ethernet.{Mac, put_mac}
use srhc_observability_claud.Rtp.Capture.{big, little, add_record, packets}
use srhc_observability_claud.Rtp.Pcap.{iter_pcap_udp_packets}
use srhc_observability_claud.Rtp.Pcapng.{ts_resolution}
use srhc_observability_claud.Rtp.Pcapng.Sections.{
  Description, Capture, Block, section, interface, packet, other, put_blocks, meaning, OtherTypes,
}
use srhc_observability_claud.Rtp.Pcapng.Meaning.{iter_pcap_udp_packets-meaning}

abbrev mac : Mac
mac = record { a = 1; b = 2; c = 3; d = 4; e = 5; f = 6 }

-- In nanoseconds, after 5 of them.
abbrev arrival : Arrival
arrival = record { ts_sec = 0; ts_frac = 5; time_scale = 1000000000 }

abbrev udp : UdpPacket
udp = record {
  arrival_time = arrival;
  src_ip = record { first = 10; second = 0; third = 0; fourth = 1 };
  dst_ip = record { first = 230; second = 230; third = 0; fourth = 2 };
  src_port = 5200;
  dst_port = 5201;
  dscp = 46;
  payload = 1 ∷ 2 ∷ 3 ∷ [];
  udp_length = 11;
  orig_len = 60;
}

abbrev capture : Capture
capture = record {
  interface_id = 0;
  ts_high = 0;
  ts_low = 5;
  packet_len = 60;
  frame = put_mac mac (put_mac mac (put16 0x0800 (ipv4_udp_packet udp 1 7 64 0 0 [])));
}

abbrev description : Description
description = record { linktype = 1; reserved = 0; snaplen = 262144; tsresol = some 9 }

abbrev blocks : List Block
blocks =
    interface description
    ∷ other 4 (0 ∷ 0 ∷ [])
    ∷ packet capture
    ∷ section big
    ∷ interface description
    ∷ packet (record capture { frame = 1 ∷ [] })
    ∷ []

skipped : OtherTypes blocks
skipped = (ground arith, λ h. absurd (ground arith), λ h. absurd (ground arith), tt)

iter_pcap_udp_packets-meaning_example :
    iter_pcap_udp_packets (put_blocks little (section little ∷ blocks) (7 ∷ [])) ≡ meaning [] blocks
iter_pcap_udp_packets-meaning_example =
    iter_pcap_udp_packets-meaning little blocks (7 ∷ []) (ground arith) skipped

-- The first packet holds the datagram and the second nothing.
two_packets : meaning [] blocks ≡ packets (udp ∷ []) 2
unfolding add_record ts_resolution parse_ethernet_udp_frame skip_tags parse_ipv4_udp_packet
    parse_udp u16
two_packets = refl
