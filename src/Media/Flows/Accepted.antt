-- ===== src/Media/Flows/Accepted.antt =====
-- Which packets become a stream that is measured as RTP, and that a stream has the packets of one
-- flow.
use srhc_observability_claud.Prelude.{
  ℕ, ◌≤◌, ◌≡◌, refl, Bool, true, false, Option, none, some, List, [], ◌∷◌, map, length, length-map,
  arith, if◌then◌else◌, ltb,
}
use srhc_observability_claud.Prelude.Select.{All, All-append}
use srhc_observability_claud.Prelude.Sort.{length-sorted}
use srhc_observability_claud.Rtp.Frame.{UdpPacket}
use srhc_observability_claud.Media.Config.{AnalyzerConfig}
use srhc_observability_claud.Media.Plausibility.{RtpPlausibilityResult, rtp_plausibility_check}
use srhc_observability_claud.Media.Plausibility.Rounds.{Item, by_arrival}
use srhc_observability_claud.Media.Plausibility.Limits.{
  WithinLimits, rtp_plausibility_check-WithinLimits, plausible_enough,
}
use srhc_observability_claud.Media.Streams.{
  MeasurementMode, rtp, udp_interarrival_only, unknown_udp, rtp_candidate_rejected, StreamIdentity,
  StreamStats, mode_of_udp, analyze_rtp_stream, analyze_udp_stream, stats_of_packets,
}
use srhc_observability_claud.Media.Flows.{
  FlowKey, RtpKey, flow_eq, flow_of, group_loop, identity_of, no_split, split_loop, Split,
  stream_of_check, stream_of_group, non_rtp_streams, streams_of_split, streams_of_flow,
  streams_of_flows, media_packets, analyze_udp_packets,
}

if_cases :
    (P : StreamStats → Type 0) (b : Bool) (x y : StreamStats)
    → (b ≡ true → P x)
    → (b ≡ false → P y)
    → P (if b then x else y)
if_cases P true x y h k = h refl
if_cases P false x y h k = k refl

module _ (config : AnalyzerConfig) where
  -- A stream in the mode `rtp` has the minimum of packets and comes with its check; under strict
  -- plausibility the figures of the check are within the limits.
  abbrev pub IsAccepted : StreamStats → Type 0
  IsAccepted s =
      s.measurement_mode ≡ rtp
      → (config.min_rtp_qoe_packets ≤ s.packet_count)
        × (r : RtpPlausibilityResult) × (s.rtp_plausibility ≡ some r)
        × (config.strict_rtp_plausibility ≡ true → WithinLimits config r)

  udp_mode : (n : ℕ) (m : MeasurementMode) → ¬ (m ≡ rtp) → ¬ (mode_of_udp n m ≡ rtp)
  unfolding mode_of_udp
  udp_mode n rtp h = h
  udp_mode n udp_interarrival_only h = choose (ltb 1 n)
    where
      choose : (b : Bool) → ¬ ((if b then udp_interarrival_only else unknown_udp) ≡ rtp)
      choose true = λ e. cc e
      choose false = λ e. cc e
  udp_mode n unknown_udp h = h
  udp_mode n rtp_candidate_rejected h = h

  udp-IsAccepted :
      (items : List UdpPacket) (identity : StreamIdentity) (m : MeasurementMode)
      (r : Option RtpPlausibilityResult)
      → ¬ (m ≡ rtp)
      → IsAccepted (analyze_udp_stream items identity config m r)
  unfolding analyze_udp_stream stats_of_packets
  udp-IsAccepted items identity m r h = λ e. absurd (udp_mode _ m h e)

  rtp-IsAccepted :
      (items : List Item) (identity : StreamIdentity)
      → (rtp_plausibility_check items config).is_plausible ≡ true
      → IsAccepted (analyze_rtp_stream items identity config (rtp_plausibility_check items config))
  unfolding analyze_rtp_stream stats_of_packets by_arrival
  rtp-IsAccepted items identity h =
      let sorted_items = by_arrival (λ i. i.0) items in
      let n : length (map (λ i. i.0) sorted_items) ≡ length sorted_items =
        length-map sorted_items (λ i. i.0) in
      let m : length sorted_items ≡ length items = length-sorted _ items in
      let enough = plausible_enough items config h in
      λ e. (
        omega (arith, n, m, enough),
        rtp_plausibility_check items config,
        refl,
        λ s. rtp_plausibility_check-WithinLimits items config s h,
      )

  group-IsAccepted :
      (flow : FlowKey) (g : RtpKey × List Item) → IsAccepted (stream_of_group config flow g)
  unfolding stream_of_group stream_of_check
  group-IsAccepted flow g =
      let identity = identity_of flow (some g.0.0) (some g.0.1) in
      let r = rtp_plausibility_check g.1 config in
      if_cases IsAccepted r.is_plausible (analyze_rtp_stream g.1 identity config r)
        (analyze_udp_stream (map (λ i. i.0) g.1) identity config rtp_candidate_rejected (some r))
        (rtp-IsAccepted g.1 identity)
        (λ _.
          udp-IsAccepted (map (λ i. i.0) g.1) identity rtp_candidate_rejected (some r) (λ d. cc d))

  groups-IsAccepted :
      (flow : FlowKey) (groups : List (RtpKey × List Item))
      → All IsAccepted (map (stream_of_group config flow) groups)
  groups-IsAccepted flow [] = tt
  groups-IsAccepted flow (g ∷ groups) = (group-IsAccepted flow g, groups-IsAccepted flow groups)

  non_rtp-IsAccepted :
      (flow : FlowKey) (packets : List UdpPacket)
      → All IsAccepted (non_rtp_streams config flow packets)
  unfolding non_rtp_streams
  non_rtp-IsAccepted flow [] = tt
  non_rtp-IsAccepted flow (p ∷ packets) = (
    udp-IsAccepted (p ∷ packets) (identity_of flow none none) udp_interarrival_only none
        (λ d. cc d),
    tt,
  )

  split-IsAccepted : (flow : FlowKey) (s : Split) → All IsAccepted (streams_of_split config flow s)
  unfolding streams_of_split
  split-IsAccepted flow s =
      All-append IsAccepted _ _ (groups-IsAccepted flow _)
        (non_rtp-IsAccepted flow s.non_rtp_packets)

  flows-IsAccepted :
      (flows : List (FlowKey × List UdpPacket)) → All IsAccepted (streams_of_flows config flows)
  unfolding streams_of_flows streams_of_flow
  flows-IsAccepted [] = tt
  flows-IsAccepted (f ∷ flows) =
      All-append IsAccepted _ _ (split-IsAccepted f.0 (split_loop no_split f.1))
        (flows-IsAccepted flows)

  -- Each stream that analyze_udp_packets measures as RTP has at least the configured minimum of
  -- packets and comes with the result of its plausibility check; under strict plausibility all
  -- figures of that result are within the configured limits.
  pub analyze_udp_packets-IsAccepted :
      (packets : List UdpPacket) → All IsAccepted (analyze_udp_packets packets config).streams
  unfolding analyze_udp_packets
  analyze_udp_packets-IsAccepted packets =
      flows-IsAccepted (group_loop flow_eq flow_of [] (media_packets config packets))
