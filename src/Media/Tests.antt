-- ===== src/Media/Tests.antt =====
-- Two RTP packets of one call and a packet that is not RTP, under a strict configuration.
use srhc_observability_claud.Prelude.{ℕ, ◌≡◌, ◌+◌, refl, true, some, List, [], ◌∷◌, map, length}
use srhc_observability_claud.Prelude.Int.{pos, ◌-ℤ◌, ◌+ℤ◌, ◌*ℤ◌}
use srhc_observability_claud.Prelude.Select.{All}
use srhc_observability_claud.Prelude.Ratio.{Ratio}
use srhc_observability_claud.Prelude.Text.{codes}
use srhc_observability_claud.Rtp.Frame.{Bytes, Ipv4, UdpPacket, RtpHeader}
use srhc_observability_claud.Rtp.Keys.{add, discard, add_range}
use srhc_observability_claud.Rtp.Sequence.{sequence_step, on_first, classify, on_forward}
use srhc_observability_claud.Media.Config.{AnalyzerConfig}
use srhc_observability_claud.Media.Plausibility.{rtp_plausibility_check}
use srhc_observability_claud.Media.Plausibility.Rounds.{Item}
use srhc_observability_claud.Media.Streams.{rtp, unknown_udp}
use srhc_observability_claud.Media.Flows.{media_packets, analyze_udp_packets}
use srhc_observability_claud.Media.Flows.Counts.{packet_sum, analyze_udp_packets_counts}
use srhc_observability_claud.Media.Flows.Accepted.{IsAccepted, analyze_udp_packets-IsAccepted}
use srhc_observability_claud.Media.Metrics.{esc_label, unescape, unescape-esc_label}

abbrev one : Ratio
one = record { num = pos 1; den = 1 }

abbrev zero_ratio : Ratio
zero_ratio = record { num = pos 0; den = 1 }

abbrev large : Ratio
large = record { num = pos 1000; den = 1 }

abbrev ip : ℕ → Ipv4
ip n = record { first = 10; second = 0; third = 0; fourth = n }

abbrev config : AnalyzerConfig
config = record {
  site = codes "site";
  capture_point = codes "ap";
  expected_dscp = some 46;
  servers = (codes "voice", ip 1) ∷ [];
  badge_subnets = record { network_address = 167772160; num_addresses = 256 } ∷ [];
  devices = [];
  media_ports = (5000, 6000) ∷ [];
  payload_clock_rates = (0, 8000) ∷ [];
  default_rtp_clock_hz = 8000;
  min_rtp_qoe_packets = 2;
  max_rtp_transit_delta_seconds = one;
  strict_rtp_plausibility = true;
  require_known_rtp_clock_rate = true;
  min_rtp_duration_seconds = zero_ratio;
  max_rtp_interarrival_ms = large;
  max_rtp_jitter_ms = large;
  min_rtp_sequence_progression_ratio = one;
  min_rtp_timestamp_progression_ratio = one;
  max_rtp_timestamp_wallclock_error_ms = large;
  min_voice_packetization_ms = one;
  max_voice_packetization_ms = large;
  max_rtp_loss_ratio = zero_ratio;
  max_rtp_duplicate_ratio = zero_ratio;
  max_rtp_out_of_order_ratio = zero_ratio;
}

abbrev packet : ℕ → ℕ → Bytes → UdpPacket
packet frac port payload = record {
  arrival_time = record { ts_sec = 100; ts_frac = frac; time_scale = 1000 };
  src_ip = ip 2;
  dst_ip = ip 1;
  src_port = port;
  dst_port = 5300;
  dscp = 46;
  payload = payload;
  udp_length = 8 + length payload;
  orig_len = 60;
}

-- The sequence number and the low byte of the timestamp.
abbrev voice : ℕ → ℕ → Bytes
voice sequence timestamp = 128 ∷ 0 ∷ 0 ∷ sequence ∷ 0 ∷ 0 ∷ 0 ∷ timestamp ∷ 0 ∷ 0 ∷ 0 ∷ 9 ∷ 1 ∷ []

abbrev packets : List UdpPacket
packets =
    packet 20 5200 (voice 8 160)
    ∷ packet 5 4000 (1 ∷ [])
    ∷ packet 0 5200 (voice 7 0)
    ∷ packet 30 100 []
    ∷ []

abbrev header : ℕ → ℕ → RtpHeader
header sequence timestamp = record {
  payload_type = 0;
  marker = 0;
  sequence = sequence;
  timestamp = timestamp;
  ssrc = 9;
  header_len = 12;
}

abbrev items : List Item
items = (packet 20 5200 (voice 8 160), header 8 160) ∷ (packet 0 5200 (voice 7 0), header 7 0) ∷ []

accepted : (rtp_plausibility_check items config).is_plausible ≡ true
unfolding rtp_plausibility_check ◌-ℤ◌ ◌+ℤ◌ ◌*ℤ◌ sequence_step on_first classify on_forward add
    discard add_range
accepted = refl

-- The two RTP packets are one stream, and so are the two others, each of its own flow.
three_streams :
    map (λ s. s.packet_count) (analyze_udp_packets packets config).streams ≡ 2 ∷ 1 ∷ 1 ∷ []
unfolding analyze_udp_packets ◌-ℤ◌ ◌+ℤ◌ ◌*ℤ◌ sequence_step on_first classify on_forward add discard
    add_range
three_streams = refl

one_is_rtp :
    map (λ s. s.measurement_mode) (analyze_udp_packets packets config).streams
    ≡ rtp ∷ unknown_udp ∷ unknown_udp ∷ []
unfolding analyze_udp_packets ◌-ℤ◌ ◌+ℤ◌ ◌*ℤ◌ sequence_step on_first classify on_forward add discard
    add_range
one_is_rtp = refl

analyze_udp_packets_counts_example :
    packet_sum (analyze_udp_packets packets config).streams ≡ length (media_packets config packets)
analyze_udp_packets_counts_example = analyze_udp_packets_counts config packets

analyze_udp_packets-IsAccepted_example :
    All (IsAccepted config) (analyze_udp_packets packets config).streams
analyze_udp_packets-IsAccepted_example = analyze_udp_packets-IsAccepted config packets

unescape-esc_label_example : unescape (esc_label (some (codes "a\"b"))) ≡ codes "a\"b"
unescape-esc_label_example = unescape-esc_label (some (codes "a\"b"))
