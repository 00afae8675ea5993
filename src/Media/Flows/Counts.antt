-- ===== src/Media/Flows/Counts.antt =====
-- The packets of the streams, counted.
use srhc_observability_claud.Prelude.{
  ℕ, suc, ◌+◌, ◌≤◌, ◌≡◌, refl, ◌∙◌, Bool, Bool-cases, inl, inr, Option, none, some, List, [], ◌∷◌,
  ◌++◌, map, length, length-append, length-map, arith, not, ◌&&◌,
}
use srhc_observability_claud.Prelude.Ratio.{Ratio, ltb_ratio}
use srhc_observability_claud.Prelude.Select.{filter}
use srhc_observability_claud.Prelude.Sort.{insert, sorted, length-sorted}
use srhc_observability_claud.Rtp.Frame.{UdpPacket, RtpHeader, parse_rtp_header}
use srhc_observability_claud.Media.Config.{AnalyzerConfig}
use srhc_observability_claud.Media.Timing.{seconds_of}
use srhc_observability_claud.Media.Plausibility.{
  RtpPlausibilityResult, is_nil, rtp_plausibility_check,
}
use srhc_observability_claud.Media.Plausibility.Rounds.{Item, by_arrival}
use srhc_observability_claud.Media.Streams.{
  rtp_candidate_rejected, udp_interarrival_only, StreamIdentity, StreamStats, MeasurementMode,
  analyze_rtp_stream, analyze_udp_stream, stats_of_packets,
}
use srhc_observability_claud.Media.Flows.{
  identity_of, FlowKey, RtpKey, Split, append_to, group_loop, flow_eq, flow_of, rtp_key_eq,
  rtp_key_less, no_split, split_step, split_loop, stream_of_check, stream_of_group, non_rtp_streams,
  streams_of_split, streams_of_flow, streams_of_flows, media_packets, analyze_udp_packets,
  filter_future_timestamp_outliers, analyze_capture,
}

-- The packets of all streams, and of all groups.
abbrev pub packet_sum : List StreamStats → ℕ
packet_sum [] = 0
packet_sum (s ∷ streams) = s.packet_count + packet_sum streams

abbrev group_sum {ℓ κ} : {K : Type ℓ} {A : Type κ} → List (K × List A) → ℕ
group_sum [] = 0
group_sum (g ∷ groups) = length g.1 + group_sum groups

packet_sum-append :
    (xs ys : List StreamStats) → packet_sum (xs ++ ys) ≡ packet_sum xs + packet_sum ys
packet_sum-append [] ys = omega arith
packet_sum-append (x ∷ xs) ys = omega (arith, packet_sum-append xs ys)

module _ {ℓ κ} {K : Type ℓ} {A : Type κ} (key_eq : K → K → Bool) where
  append_to-sum :
      (key : K) (x : A) (groups : List (K × List A))
      → group_sum (append_to key_eq key x groups) ≡ suc (group_sum groups)
  unfolding append_to
  append_to-sum key x [] = omega arith
  append_to-sum key x (g ∷ groups) = elim (Bool-cases (key_eq g.0 key)) [
    | inl e ↦ simp e (omega (arith, length-append g.1 (x ∷ [])))
    | inr e ↦ simp e (omega (arith, append_to-sum key x groups))
  ]

  group_loop-sum :
      (key_of : A → K) (groups : List (K × List A)) (xs : List A)
      → group_sum (group_loop key_eq key_of groups xs) ≡ group_sum groups + length xs
  unfolding group_loop
  group_loop-sum key_of groups [] = omega arith
  group_loop-sum key_of groups (x ∷ xs) = omega (
    arith,
    group_loop-sum key_of (append_to key_eq (key_of x) x groups) xs,
    append_to-sum (key_of x) x groups,
  )

module _ {ℓ κ} {K : Type ℓ} {A : Type κ} (less : K × List A → K × List A → Bool) where
  insert-sum :
      (g : K × List A) (groups : List (K × List A))
      → group_sum (insert less g groups) ≡ length g.1 + group_sum groups
  unfolding insert
  insert-sum g [] = omega arith
  insert-sum g (h ∷ groups) = elim (Bool-cases (less h g)) [
    | inl e ↦ simp e (omega (arith, insert-sum g groups))
    | inr e ↦ simp e refl
  ]

  sorted-sum : (groups : List (K × List A)) → group_sum (sorted less groups) ≡ group_sum groups
  unfolding sorted
  sorted-sum [] = refl
  sorted-sum (g ∷ groups) = omega (arith, insert-sum g (sorted less groups), sorted-sum groups)

abbrev split_sum : Split → ℕ
split_sum s = group_sum s.rtp_groups + length s.non_rtp_packets

split_step-sum :
    (packet : UdpPacket) (o : Option RtpHeader) (s : Split)
    → split_sum (split_step packet o s) ≡ suc (split_sum s)
unfolding split_step
split_step-sum packet none s = omega (arith, length-append s.non_rtp_packets (packet ∷ []))
split_step-sum packet (some h) s =
    omega (arith, append_to-sum rtp_key_eq (h.ssrc, h.payload_type) (packet, h) s.rtp_groups)

split_loop-sum :
    (s : Split) (packets : List UdpPacket)
    → split_sum (split_loop s packets) ≡ split_sum s + length packets
unfolding split_loop
split_loop-sum s [] = omega arith
split_loop-sum s (p ∷ packets) = omega (
  arith,
  split_loop-sum (split_step p (parse_rtp_header p.payload) s) packets,
  split_step-sum p (parse_rtp_header p.payload) s,
)

by_arrival-length {ℓ} :
    {A : Type ℓ} (packet_of : A → UdpPacket) (xs : List A)
    → length (by_arrival packet_of xs) ≡ length xs
unfolding by_arrival
by_arrival-length packet_of xs = length-sorted _ xs

rtp_stream-count :
    (items : List Item) (identity : StreamIdentity) (config : AnalyzerConfig)
    (r : RtpPlausibilityResult)
    → (analyze_rtp_stream items identity config r).packet_count ≡ length items
unfolding analyze_rtp_stream stats_of_packets
rtp_stream-count items identity config r =
    length-map (by_arrival (λ i. i.0) items) (λ i. i.0) ∙ by_arrival-length (λ i. i.0) items

udp_stream-count :
    (items : List UdpPacket) (identity : StreamIdentity) (config : AnalyzerConfig)
    (m : MeasurementMode) (r : Option RtpPlausibilityResult)
    → (analyze_udp_stream items identity config m r).packet_count ≡ length items
unfolding analyze_udp_stream stats_of_packets
udp_stream-count items identity config m r = by_arrival-length (λ p. p) items

stream_of_check-count :
    (config : AnalyzerConfig) (identity : StreamIdentity) (items : List Item)
    (r : RtpPlausibilityResult)
    → (stream_of_check config identity items r).packet_count ≡ length items
unfolding stream_of_check
stream_of_check-count config identity items r = elim (Bool-cases r.is_plausible) [
  | inl e ↦ simp e (rtp_stream-count items identity config r)
  | inr e ↦ simp e (
      udp_stream-count (map (λ i. i.0) items) identity config rtp_candidate_rejected (some r)
      ∙ length-map items (λ i. i.0))
]

module _ (config : AnalyzerConfig) where
  groups-count :
      (flow : FlowKey) (groups : List (RtpKey × List Item))
      → packet_sum (map (stream_of_group config flow) groups) ≡ group_sum groups
  unfolding stream_of_group
  groups-count flow [] = refl
  groups-count flow (g ∷ groups) = omega (
    arith,
    groups-count flow groups,
    stream_of_check-count config (identity_of flow (some g.0.0) (some g.0.1)) g.1
        (rtp_plausibility_check g.1 config),
  )

  non_rtp-count :
      (flow : FlowKey) (packets : List UdpPacket)
      → packet_sum (non_rtp_streams config flow packets) ≡ length packets
  unfolding non_rtp_streams
  non_rtp-count flow [] = refl
  non_rtp-count flow (p ∷ packets) = omega (
    arith,
    udp_stream-count (p ∷ packets) (identity_of flow none none) config udp_interarrival_only none,
  )

  split-count :
      (flow : FlowKey) (s : Split) → packet_sum (streams_of_split config flow s) ≡ split_sum s
  unfolding streams_of_split
  split-count flow s =
      let groups = sorted (λ a b. rtp_key_less a.0 b.0) s.rtp_groups in
      omega (
        arith,
        packet_sum-append (map (stream_of_group config flow) groups)
            (non_rtp_streams config flow s.non_rtp_packets),
        groups-count flow groups,
        sorted-sum (λ a b. rtp_key_less a.0 b.0) s.rtp_groups,
        non_rtp-count flow s.non_rtp_packets,
      )

  flow-count :
      (flow : FlowKey × List UdpPacket) → packet_sum (streams_of_flow config flow) ≡ length flow.1
  unfolding streams_of_flow
  flow-count flow =
      omega (arith, split-count flow.0 (split_loop no_split flow.1), split_loop-sum no_split flow.1)

  flows-count :
      (flows : List (FlowKey × List UdpPacket))
      → packet_sum (streams_of_flows config flows) ≡ group_sum flows
  unfolding streams_of_flows
  flows-count [] = refl
  flows-count (f ∷ flows) = omega (
    arith,
    packet_sum-append (streams_of_flow config f) (streams_of_flows config flows),
    flow-count f,
    flows-count flows,
  )

  -- The packet counts of the streams that analyze_udp_packets returns add up to the number of packets
  -- with a media port: each of them is counted in one stream, RTP or not.
  pub analyze_udp_packets_counts :
      (packets : List UdpPacket)
      → packet_sum (analyze_udp_packets packets config).streams
        ≡ length (media_packets config packets)
  unfolding analyze_udp_packets
  analyze_udp_packets_counts packets =
      let media = media_packets config packets in
      omega (
        arith,
        flows-count (group_loop flow_eq flow_of [] media),
        group_loop-sum flow_eq flow_of [] media,
      )

  filter-length :
      (keep : UdpPacket → Bool) (xs : List UdpPacket) → length (filter keep xs) ≤ length xs
  unfolding filter
  filter-length keep [] = omega arith
  filter-length keep (x ∷ xs) = elim (Bool-cases (keep x)) [
    | inl e ↦ simp e (omega (arith, filter-length keep xs))
    | inr e ↦ simp e (omega (arith, filter-length keep xs))
  ]

  media-length : (packets : List UdpPacket) → length (media_packets config packets) ≤ length packets
  unfolding media_packets
  media-length packets = filter-length _ packets

  analyzed-length :
      (packets : List UdpPacket) (limit : Ratio)
      → length (filter_future_timestamp_outliers packets limit).0
          + (filter_future_timestamp_outliers packets limit).1
        ≡ length packets
  unfolding filter_future_timestamp_outliers
  analyzed-length packets limit =
      omega (arith, filter-length (λ p. not (ltb_ratio limit (seconds_of p.arrival_time))) packets)

  -- On any capture, the packets of the streams and the packets that were dropped for a time in the
  -- future are together no more than the UDP packets of the capture.
  analyze_capture_counts :
      (udp_packets : List UdpPacket) (packets_read : ℕ) (max_arrival_time : Ratio)
      → let r = analyze_capture udp_packets packets_read max_arrival_time config in
        packet_sum r.streams + r.timestamp_outlier_packets ≤ length udp_packets
  unfolding analyze_capture
  analyze_capture_counts udp_packets packets_read max_arrival_time =
      let f = filter_future_timestamp_outliers udp_packets max_arrival_time in
      let total = analyzed-length udp_packets max_arrival_time in
      elim (Bool-cases (not (is_nil udp_packets) && is_nil f.0)) [
        | inl e ↦ simp e (omega (arith, total))
        | inr e ↦ simp e (omega (arith, total, analyze_udp_packets_counts f.0, media-length f.0))
      ]
