-- ===== src/Media/Flows.antt =====
-- `analyze_udp_packets`, `filter_future_timestamp_outliers` and `analyze_pcap`: packets are grouped by
-- flow, those of a flow by SSRC and payload type, and each group gives a stream.
pub mod Counts
pub mod Accepted
use srhc_observability_claud.Prelude.{
  ℕ, ◌-◌, Bool, true, false, not, ◌&&◌, ◌||◌, Option, none, some, List, [], ◌∷◌, ◌++◌, map, length,
  ltb, ◌==◌, if◌then◌else◌,
}
use srhc_observability_claud.Prelude.Select.{filter}
use srhc_observability_claud.Prelude.Sort.{sorted}
use srhc_observability_claud.Prelude.Ratio.{Ratio, ltb_ratio}
use srhc_observability_claud.Rtp.Frame.{Ipv4, UdpPacket, RtpHeader, parse_rtp_header}
use srhc_observability_claud.Media.Config.{AnalyzerConfig, ip_eq, media_port_matches}
use srhc_observability_claud.Media.Timing.{seconds_of, greatest_of}
use srhc_observability_claud.Media.Plausibility.{
  RtpPlausibilityResult, is_nil, rtp_plausibility_check,
}
use srhc_observability_claud.Media.Plausibility.Rounds.{
  loss_ratio_implausible, loss_ratio_implausible, loss_ratio_implausible, loss_ratio_implausible,
  Item,
}
use srhc_observability_claud.Media.Streams.{
  udp_interarrival_only, rtp_candidate_rejected, StreamIdentity, StreamStats, analyze_rtp_stream,
  analyze_udp_stream,
}

-- `groups[key].append(x)` of a `defaultdict(list)`, which keeps the order of the first appends.
module _ {ℓ κ} {K : Type ℓ} {A : Type κ} (key_eq : K → K → Bool) where
  unfoldable pub append_to : K → A → List (K × List A) → List (K × List A)
  append_to key x [] = (key, x ∷ []) ∷ []
  append_to key x (g ∷ groups) =
      let rest = append_to key x groups in
      if key_eq g.0 key then (g.0, g.1 ++ x ∷ []) ∷ groups else g ∷ rest

  unfoldable pub group_loop : (A → K) → List (K × List A) → List A → List (K × List A)
  unfolding append_to
  group_loop key_of groups [] = groups
  group_loop key_of groups (x ∷ xs) = group_loop key_of (append_to (key_of x) x groups) xs

pub record FlowKey : Type 0 where
  pub src_ip : Ipv4
  pub src_port : ℕ
  pub dst_ip : Ipv4
  pub dst_port : ℕ

abbrev pub flow_eq : FlowKey → FlowKey → Bool
flow_eq a b =
    ip_eq a.src_ip b.src_ip
    && a.src_port == b.src_port
    && ip_eq a.dst_ip b.dst_ip
    && a.dst_port == b.dst_port

unfoldable pub flow_of : UdpPacket → FlowKey
flow_of p = record {
  src_ip = p.src_ip;
  src_port = p.src_port;
  dst_ip = p.dst_ip;
  dst_port = p.dst_port;
}

-- The SSRC and the payload type.
abbrev pub RtpKey : Type 0
RtpKey = ℕ × ℕ

abbrev pub rtp_key_eq : RtpKey → RtpKey → Bool
rtp_key_eq a b = a.0 == b.0 && a.1 == b.1

abbrev pub rtp_key_less : RtpKey → RtpKey → Bool
rtp_key_less a b = ltb a.0 b.0 || (a.0 == b.0 && ltb a.1 b.1)

-- The packets of a flow that are not RTP, and the others in groups.
pub record Split : Type 0 where
  pub rtp_groups : List (RtpKey × List Item)
  pub non_rtp_packets : List UdpPacket

unfoldable pub split_step : UdpPacket → Option RtpHeader → Split → Split
unfolding append_to
split_step packet none s = record s { non_rtp_packets = s.non_rtp_packets ++ packet ∷ [] }
split_step packet (some header) s = record s {
  rtp_groups =
      append_to rtp_key_eq (header.ssrc, header.payload_type) (packet, header) s.rtp_groups;
}

unfoldable pub split_loop : Split → List UdpPacket → Split
unfolding parse_rtp_header split_step
split_loop s [] = s
split_loop s (packet ∷ packets) =
    split_loop (split_step packet (parse_rtp_header packet.payload) s) packets

unfoldable pub identity_of : FlowKey → Option ℕ → Option ℕ → StreamIdentity
identity_of flow ssrc payload_type = record {
  src_ip = flow.src_ip;
  src_port = flow.src_port;
  dst_ip = flow.dst_ip;
  dst_port = flow.dst_port;
  ssrc = ssrc;
  payload_type = payload_type;
}

-- The stream of an RTP group, given its check.
unfoldable pub stream_of_check :
    AnalyzerConfig → StreamIdentity → List Item → RtpPlausibilityResult → StreamStats
unfolding analyze_rtp_stream analyze_udp_stream
stream_of_check config identity items plausibility =
    if plausibility.is_plausible
    then analyze_rtp_stream items identity config plausibility
    else analyze_udp_stream (map (λ i. i.0) items) identity config rtp_candidate_rejected
        (some plausibility)

unfoldable pub stream_of_group : AnalyzerConfig → FlowKey → RtpKey × List Item → StreamStats
unfolding identity_of rtp_plausibility_check stream_of_check
stream_of_group config flow g =
    stream_of_check config (identity_of flow (some g.0.0) (some g.0.1)) g.1
      (rtp_plausibility_check g.1 config)

unfoldable pub non_rtp_streams : AnalyzerConfig → FlowKey → List UdpPacket → List StreamStats
unfolding identity_of analyze_udp_stream
non_rtp_streams config flow [] = []
non_rtp_streams config flow (p ∷ packets) =
    analyze_udp_stream (p ∷ packets) (identity_of flow none none) config udp_interarrival_only none
    ∷ []

unfoldable pub streams_of_split : AnalyzerConfig → FlowKey → Split → List StreamStats
unfolding sorted stream_of_group non_rtp_streams
streams_of_split config flow s =
    map (stream_of_group config flow) (sorted (λ a b. rtp_key_less a.0 b.0) s.rtp_groups)
    ++ non_rtp_streams config flow s.non_rtp_packets

abbrev pub no_split : Split
no_split = record { rtp_groups = []; non_rtp_packets = [] }

unfoldable pub streams_of_flow : AnalyzerConfig → FlowKey × List UdpPacket → List StreamStats
unfolding split_loop streams_of_split
streams_of_flow config flow = streams_of_split config flow.0 (split_loop no_split flow.1)

unfoldable pub streams_of_flows :
    AnalyzerConfig → List (FlowKey × List UdpPacket) → List StreamStats
unfolding streams_of_flow
streams_of_flows config [] = []
streams_of_flows config (flow ∷ flows) =
    streams_of_flow config flow ++ streams_of_flows config flows

-- The error is that all timestamps are in the future.
pub record AnalysisResult : Type 0 where
  pub streams : List StreamStats
  pub packets_read : ℕ
  pub udp_packets_seen : ℕ
  pub last_capture_timestamp_seconds : Option Ratio
  pub parse_success : Bool
  pub timestamp_outlier_packets : ℕ

unfoldable pub media_packets : AnalyzerConfig → List UdpPacket → List UdpPacket
unfolding filter media_port_matches
media_packets config packets =
    filter (λ p. media_port_matches config.media_ports p.src_port p.dst_port) packets

unfoldable pub analyze_udp_packets : List UdpPacket → AnalyzerConfig → AnalysisResult
unfolding media_packets group_loop flow_of streams_of_flows greatest_of seconds_of
analyze_udp_packets all_packets config =
    let packets = media_packets config all_packets in
    record {
      streams = streams_of_flows config (group_loop flow_eq flow_of [] packets);
      packets_read = length packets;
      udp_packets_seen = length packets;
      last_capture_timestamp_seconds = greatest_of (map (λ p. seconds_of p.arrival_time) packets);
      parse_success = true;
      timestamp_outlier_packets = 0;
    }

unfoldable pub filter_future_timestamp_outliers : List UdpPacket → Ratio → List UdpPacket × ℕ
unfolding filter ltb_ratio seconds_of
filter_future_timestamp_outliers packets max_arrival_time =
    let valid =
      filter (λ p. not (ltb_ratio max_arrival_time (seconds_of p.arrival_time))) packets in
    (valid, length packets - length valid)

-- `analyze_pcap` once the capture is read, up to the labels from the path. `max_arrival_time` is the
-- time of the collector plus its tolerance.
unfoldable pub analyze_capture : List UdpPacket → ℕ → Ratio → AnalyzerConfig → AnalysisResult
unfolding filter_future_timestamp_outliers analyze_udp_packets
analyze_capture udp_packets packets_read max_arrival_time config =
    let (analyzed_packets, timestamp_outliers) =
      filter_future_timestamp_outliers udp_packets max_arrival_time in
    if not (is_nil udp_packets) && is_nil analyzed_packets
    then record {
      streams = [];
      packets_read = packets_read;
      udp_packets_seen = length udp_packets;
      last_capture_timestamp_seconds = none;
      parse_success = false;
      timestamp_outlier_packets = timestamp_outliers;
    }
    else record (analyze_udp_packets analyzed_packets config) {
      packets_read = packets_read;
      udp_packets_seen = length udp_packets;
      timestamp_outlier_packets = timestamp_outliers;
    }
