-- ===== src/Media/Streams.antt =====
-- `analyze_rtp_stream`, `analyze_udp_stream` and `analyze_udp_packets`. The names and the site of a
-- stream are those of the configuration. A stream always has a packet; on none, where the code
-- raises, its times are 0.
use srhc_observability_claud.Prelude.{
  ℕ, suc, ◌+◌, Bool, true, false, not, Option, none, some, List, [], ◌∷◌, map, length, ltb, ◌==◌,
  if◌then◌else◌,
}
use srhc_observability_claud.Prelude.Ratio.{Ratio, ratio}
use srhc_observability_claud.Prelude.Text.{Text}
use srhc_observability_claud.Rtp.Frame.{Ipv4, UdpPacket}
use srhc_observability_claud.Rtp.Sequence.{SequenceStats, rtp_sequence_stats}
use srhc_observability_claud.Media.Config.{
  AnalyzerConfig, Labels, role_for, direction_for, server_label, stream_device_labels,
  rtp_clock_rate,
}
use srhc_observability_claud.Media.Timing.{
  seconds_of, interarrival_stats, packet_rate, rtp_jitter_ms,
}
use srhc_observability_claud.Media.Plausibility.{RtpPlausibilityResult, last_arrival, ratio_or_zero}
use srhc_observability_claud.Media.Plausibility.Rounds.{Item, Reason, by_arrival}

pub data MeasurementMode : Type 0 where
  rtp udp_interarrival_only unknown_udp rtp_candidate_rejected : MeasurementMode

-- The SSRC and the payload type are there for the packets of an RTP group.
pub record StreamIdentity : Type 0 where
  pub src_ip : Ipv4
  pub src_port : ℕ
  pub dst_ip : Ipv4
  pub dst_port : ℕ
  pub ssrc : Option ℕ
  pub payload_type : Option ℕ

-- The figures of an RTP stream only.
pub record RtpFigures : Type 0 where
  pub sequence : SequenceStats
  pub loss_ratio : Ratio
  pub jitter_ms : Ratio

pub record StreamStats : Type 0 where
  pub identity : StreamIdentity
  pub measurement_mode : MeasurementMode
  pub src_role : Text
  pub dst_role : Text
  pub device : Labels
  pub peer : Labels
  pub direction : Text
  pub server : Text
  pub dscp : ℕ
  pub packet_count : ℕ
  pub byte_count : ℕ
  pub first_seen : Ratio
  pub last_seen : Ratio
  pub rtp_figures : Option RtpFigures
  pub interarrival_p50_ms : Option Ratio
  pub interarrival_p95_ms : Option Ratio
  pub interarrival_max_ms : Option Ratio
  pub packet_rate_pps : Option Ratio
  pub dscp_mismatch : Bool
  pub clock_rate_known : Bool
  pub rtp_plausibility : Option RtpPlausibilityResult
  pub rtp_rejection_reasons : List Reason

unfoldable pub count_of : ℕ → List ℕ → ℕ
count_of value [] = 0
count_of value (x ∷ xs) = let rest = count_of value xs in if value == x then suc rest else rest

-- `statistics.mode`: the first of the most frequent values.
unfoldable pub most_common_from : List ℕ → ℕ → List ℕ → ℕ
unfolding count_of
most_common_from all best [] = best
most_common_from all best (x ∷ xs) =
    most_common_from all (if ltb (count_of best all) (count_of x all) then x else best) xs

unfoldable pub most_common : List ℕ → ℕ
unfolding most_common_from
most_common [] = 0
most_common (x ∷ xs) = most_common_from (x ∷ xs) x xs

unfoldable pub byte_sum : List UdpPacket → ℕ
byte_sum [] = 0
byte_sum (p ∷ packets) = p.udp_length + byte_sum packets

unfoldable pub first_seen_of : List Ratio → Ratio
unfolding ratio
first_seen_of [] = ratio 0 1
first_seen_of (a ∷ arrivals) = a

unfoldable pub last_seen_of : List Ratio → Ratio
unfolding ratio last_arrival
last_seen_of [] = ratio 0 1
last_seen_of (a ∷ arrivals) = last_arrival a arrivals

unfoldable pub label_of : List UdpPacket → AnalyzerConfig → Text
unfolding server_label
label_of [] config = []
label_of (p ∷ packets) config = server_label p config

-- `config.expected_dscp is not None and dscp != config.expected_dscp`
unfoldable pub is_mismatch : Option ℕ → ℕ → Bool
is_mismatch none dscp = false
is_mismatch (some expected) dscp = not (dscp == expected)

-- What both kinds of stream have, from the packets in the order of their arrival.
unfoldable pub stats_of_packets :
    List UdpPacket
    → StreamIdentity
    → AnalyzerConfig
    → MeasurementMode
    → Option RtpFigures
    → Bool
    → Option RtpPlausibilityResult
    → List Reason
    → StreamStats
unfolding role_for direction_for stream_device_labels seconds_of interarrival_stats most_common
    byte_sum first_seen_of last_seen_of label_of packet_rate is_mismatch
stats_of_packets packets identity config mode_of figures known plausibility reasons =
    let src_role = role_for config identity.src_ip in
    let dst_role = role_for config identity.dst_ip in
    let (device, peer) = stream_device_labels config identity.src_ip identity.dst_ip in
    let arrivals = map (λ p. seconds_of p.arrival_time) packets in
    let (p50_gap, p95_gap, max_gap) = interarrival_stats arrivals in
    let dscp = most_common (map (λ p. p.dscp) packets) in
    record {
      identity = identity;
      measurement_mode = mode_of;
      src_role = src_role;
      dst_role = dst_role;
      device = device;
      peer = peer;
      direction = direction_for src_role dst_role;
      server = label_of packets config;
      dscp = dscp;
      packet_count = length packets;
      byte_count = byte_sum packets;
      first_seen = first_seen_of arrivals;
      last_seen = last_seen_of arrivals;
      rtp_figures = figures;
      interarrival_p50_ms = p50_gap;
      interarrival_p95_ms = p95_gap;
      interarrival_max_ms = max_gap;
      packet_rate_pps =
          packet_rate (length packets) (first_seen_of arrivals) (last_seen_of arrivals);
      dscp_mismatch = is_mismatch config.expected_dscp dscp;
      clock_rate_known = known;
      rtp_plausibility = plausibility;
      rtp_rejection_reasons = reasons;
    }

unfoldable pub rtp_figures_of : List Item → AnalyzerConfig → ℕ → RtpFigures
unfolding rtp_sequence_stats ratio_or_zero rtp_jitter_ms
rtp_figures_of packets config clock_rate =
    let stats = rtp_sequence_stats (map (λ i. i.1.sequence) packets) in
    record {
      sequence = stats;
      loss_ratio = ratio_or_zero stats.lost_packets stats.expected_packets;
      jitter_ms = rtp_jitter_ms packets clock_rate config.max_rtp_transit_delta_seconds;
    }

unfoldable pub rate_of_identity : AnalyzerConfig → Option ℕ → ℕ × Bool
unfolding rtp_clock_rate
rate_of_identity config none = (config.default_rtp_clock_hz, false)
rate_of_identity config (some payload_type) = rtp_clock_rate config payload_type

unfoldable pub analyze_rtp_stream :
    List Item → StreamIdentity → AnalyzerConfig → RtpPlausibilityResult → StreamStats
unfolding by_arrival rtp_figures_of rate_of_identity stats_of_packets
analyze_rtp_stream items identity config plausibility =
    let packets = by_arrival (λ i. i.0) items in
    let (clock_rate, known) = rate_of_identity config identity.payload_type in
    stats_of_packets (map (λ i. i.0) packets) identity config rtp
      (some (rtp_figures_of packets config clock_rate)) known (some plausibility) []

-- `measurement_mode if len(packets) > 1 or measurement_mode != "udp_interarrival_only" else …`
unfoldable pub mode_of_udp : ℕ → MeasurementMode → MeasurementMode
mode_of_udp packet_count udp_interarrival_only =
    if ltb 1 packet_count then udp_interarrival_only else unknown_udp
mode_of_udp packet_count measurement_mode = measurement_mode

-- `rtp_plausibility.clock_rate_known if rtp_plausibility else True`, and the reasons.
unfoldable pub known_of : Option RtpPlausibilityResult → Bool
known_of none = true
known_of (some r) = r.clock_rate_known

unfoldable pub rejections_of : Option RtpPlausibilityResult → List Reason
rejections_of none = []
rejections_of (some r) = r.reasons

unfoldable pub analyze_udp_stream :
    List UdpPacket
    → StreamIdentity
    → AnalyzerConfig
    → MeasurementMode
    → Option RtpPlausibilityResult
    → StreamStats
unfolding by_arrival mode_of_udp known_of rejections_of stats_of_packets
analyze_udp_stream items identity config measurement_mode rtp_plausibility =
    let packets = by_arrival (λ p. p) items in
    stats_of_packets packets identity config (mode_of_udp (length packets) measurement_mode) none
      (known_of rtp_plausibility) rtp_plausibility (rejections_of rtp_plausibility)
