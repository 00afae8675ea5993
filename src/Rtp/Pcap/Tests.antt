-- ===== src/Rtp/Pcap/Tests.antt =====
-- The theorems on frames and pcap files at concrete bytes.
use srhc_observability_claud.Prelude.{
  ◌≡◌, inl, refl, ◌+◌, ◌*◌, ◌/◌, ◌%◌, ◌≤◌, some, List, [], ◌∷◌, length, arith,
}
use srhc_observability_claud.Rtp.Frame.{
  Bytes, byte, u16, Arrival, UdpPacket, RtpHeader, parse_rtp_header, parse_ipv4_udp_packet,
  parse_udp, parse_ethernet_udp_frame, skip_tags,
}
use srhc_observability_claud.Rtp.Frame.Encode.{put16}
use srhc_observability_claud.Rtp.Frame.Header.Layout.{Extension, rtp_packet}
use srhc_observability_claud.Rtp.Frame.Header.{
  PaddingFits, parse_rtp_header_bounds, parse_rtp_header_reads,
}
use srhc_observability_claud.Rtp.Frame.Udp.{ipv4_udp_packet, parse_ipv4_udp_packet_reads}
use srhc_observability_claud.Rtp.Frame.Ethernet.{Mac, Tags, put_mac}
use srhc_observability_claud.Rtp.Capture.{big, little, packets, error, out_of_fuel}
use srhc_observability_claud.Rtp.Pcap.{iter_pcap_udp_packets}
use srhc_observability_claud.Rtp.Pcap.Records.{Record, parsed}
use srhc_observability_claud.Rtp.Pcap.Files.{
  microseconds, nanoseconds, pcap_file, format_of, iter_pcap_udp_packets_reads,
  iter_pcap_udp_packets_ends,
}

abbrev header : RtpHeader
header = record {
  payload_type = 0;
  marker = 1;
  sequence = 65535;
  timestamp = 123456789;
  ssrc = 4000000000;
  header_len = 24;
}

abbrev csrc : Bytes
csrc = 1 ∷ 2 ∷ 3 ∷ 4 ∷ []

-- An extension of one word.
abbrev extension : Extension
extension = record { profile = 0xBEDE; words = 1; content = 5 ∷ 6 ∷ 7 ∷ 8 ∷ [] }

abbrev voice : Bytes
voice = rtp_packet header 1 csrc (some extension) (9 ∷ 9 ∷ []) (some (0 ∷ []))

parse_rtp_header_reads_example : parse_rtp_header voice ≡ some header
parse_rtp_header_reads_example =
    parse_rtp_header_reads header 1 csrc (some extension) (9 ∷ 9 ∷ []) (some (0 ∷ []))
      (ground arith) (ground arith) refl refl refl

parse_rtp_header_bounds_example :
    (byte voice 0 / 64 ≡ 2)
    × (12 + 4 * (byte voice 0 % 16) ≤ 24)
    × (24 ≤ length voice)
    × PaddingFits voice 24
parse_rtp_header_bounds_example =
    parse_rtp_header_bounds voice header parse_rtp_header_reads_example

abbrev arrival : Arrival
arrival = record { ts_sec = 1700000000; ts_frac = 5; time_scale = 1000000 }

abbrev udp : UdpPacket
udp = record {
  arrival_time = arrival;
  src_ip = record { first = 10; second = 0; third = 0; fourth = 1 };
  dst_ip = record { first = 230; second = 230; third = 0; fourth = 2 };
  src_port = 5200;
  dst_port = 5201;
  dscp = 46;
  payload = 1 ∷ 2 ∷ 3 ∷ [];
  udp_length = 11;
  orig_len = 60;
}

abbrev padding : Bytes
padding = 0 ∷ 0 ∷ 0 ∷ []

abbrev datagram : Bytes
datagram = ipv4_udp_packet udp 1 7 64 0 0 padding

parse_ipv4_udp_packet_reads_example : parse_ipv4_udp_packet datagram arrival 60 ≡ some udp
parse_ipv4_udp_packet_reads_example =
    parse_ipv4_udp_packet_reads udp 1 7 64 0 0 padding refl (ground arith)

abbrev mac : Mac
mac = record { a = 1; b = 2; c = 3; d = 4; e = 5; f = 6 }

abbrev tags : Tags
tags = (0x88A8, 10) ∷ (0x8100, 20) ∷ []

abbrev one_record : Record
one_record = record {
  ts_sec = 1700000000;
  ts_frac = 5;
  orig_len = 60;
  frame = put_mac mac (put_mac mac (put16 0x0800 datagram));
}

abbrev capture_records : List Record
capture_records = one_record ∷ record one_record { frame = 1 ∷ 2 ∷ [] } ∷ []

iter_pcap_udp_packets_reads_example :
    iter_pcap_udp_packets (pcap_file little nanoseconds 262144 1 capture_records padding)
    ≡ packets (parsed (format_of little nanoseconds 262144 1) capture_records) 2
iter_pcap_udp_packets_reads_example =
    iter_pcap_udp_packets_reads little nanoseconds 262144 1 capture_records padding (inl refl)
      (ground arith) (ground arith, (ground arith, tt))

-- With times in microseconds, the first frame holds the packet and the second none.
found_packets : parsed (format_of little microseconds 262144 1) capture_records ≡ udp ∷ []
unfolding parse_ethernet_udp_frame skip_tags parse_ipv4_udp_packet parse_udp u16
found_packets = refl

iter_pcap_udp_packets_ends_example : ¬ (
    iter_pcap_udp_packets (pcap_file big microseconds 65535 127 capture_records [])
    ≡ error out_of_fuel)
iter_pcap_udp_packets_ends_example =
    iter_pcap_udp_packets_ends (pcap_file big microseconds 65535 127 capture_records [])
