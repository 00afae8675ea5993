-- ===== src/Media/Plausibility.antt =====
-- `rtp_plausibility_check`. The debug packets of its result are left out.
pub mod Rounds
pub mod Limits
use srhc_observability_claud.Media.Plausibility.Rounds.{
  unknown_clock_rate, too_few_packets, timestamp_wallclock_mismatch, timestamp_not_progressing,
  sequence_not_progressing, packetization_implausible, out_of_order_ratio_implausible,
  loss_ratio_implausible, jitter_implausible, interarrival_gap_too_large, duration_too_short,
  duplicate_ratio_implausible, Item, by_arrival, Reason, Progress, no_progress, progress_loop,
}
use srhc_observability_claud.Prelude.{
  ℕ, zero, suc, ◌+◌, ◌-◌, ◌/◌, max, Bool, true, false, not, ◌&&◌, ◌||◌, Option, none, some, List,
  [], ◌∷◌, map, length, ltb, leb, ◌==◌, if◌then◌else◌,
}
use srhc_observability_claud.Prelude.Int.{ℤ, pos, ltb_ℤ, ◌-ℤ◌}
use srhc_observability_claud.Prelude.Ratio.{
  Ratio, ratio, sub_ratio, scale_ratio, abs_ratio, ltb_ratio,
}
use srhc_observability_claud.Prelude.Sort.{sorted}
use srhc_observability_claud.Rtp.Frame.{UdpPacket, RtpHeader}
use srhc_observability_claud.Rtp.Sequence.{extend_rtp_sequence, is_forward, rtp_sequence_stats}
use srhc_observability_claud.Rtp.Timestamp.{rtp_timestamp_delta}
use srhc_observability_claud.Media.Config.{AnalyzerConfig, rtp_clock_rate}
use srhc_observability_claud.Media.Timing.{
  seconds_of, percentile, interarrival_stats, rtp_jitter_ms,
}

-- `a / b if b else 0.0`
unfoldable pub ratio_or_zero : ℕ → ℕ → Ratio
unfolding ratio
ratio_or_zero a zero = ratio 0 1
ratio_or_zero a (suc b) = ratio a (suc b)

unfoldable pub last_arrival : Ratio → List Ratio → Ratio
last_arrival arrival [] = arrival
last_arrival arrival (next ∷ arrivals) = last_arrival next arrivals

-- The last less the first: 0 for one arrival.
unfoldable pub duration_of : List Ratio → Ratio
unfolding ratio sub_ratio last_arrival
duration_of [] = ratio 0 1
duration_of (first ∷ arrivals) = sub_ratio (last_arrival first arrivals) first

abbrev pub is_seen : ℕ → List ℕ → Bool
is_seen value [] = false
is_seen value (x ∷ xs) = value == x || is_seen value xs

-- The number of different values.
unfoldable pub distinct_with : List ℕ → List ℕ → ℕ
distinct_with seen [] = length seen
distinct_with seen (value ∷ values) =
    distinct_with (if is_seen value seen then seen else value ∷ seen) values

-- A value that is there and above, or below, a bound.
unfoldable pub is_above : Option Ratio → Ratio → Bool
unfolding ltb_ratio
is_above none bound = false
is_above (some value) bound = ltb_ratio bound value

unfoldable pub is_below : Option Ratio → Ratio → Bool
unfolding ltb_ratio
is_below none bound = false
is_below (some value) bound = ltb_ratio value bound

pub record RtpPlausibilityResult : Type 0 where
  pub is_plausible : Bool
  pub reasons : List Reason
  pub packet_count : ℕ
  pub duration_seconds : Ratio
  pub sequence_progression_ratio : Ratio
  pub timestamp_progression_ratio : Ratio
  pub timestamp_wallclock_error_ms : Option Ratio
  pub interarrival_p50_ms : Option Ratio
  pub interarrival_p95_ms : Option Ratio
  pub interarrival_max_ms : Option Ratio
  pub estimated_packetization_ms : Option Ratio
  pub loss_ratio : Ratio
  pub duplicate_ratio : Ratio
  pub out_of_order_ratio : Ratio
  pub jitter_ms : Ratio
  pub clock_rate_known : Bool

abbrev pub add_if : Bool → Reason → List Reason → List Reason
add_if true reason reasons = reason ∷ reasons
add_if false reason reasons = reasons

-- The reasons for the figures, sorted by name: each test adds its own reason once.
unfoldable pub reasons_of : AnalyzerConfig → RtpPlausibilityResult → List Reason
unfolding ltb_ratio is_above is_below ratio
reasons_of config r =
    add_if (ltb_ratio config.max_rtp_duplicate_ratio r.duplicate_ratio) duplicate_ratio_implausible
      (add_if
        (not (ltb_ratio (ratio 0 1) r.duration_seconds)
          || ltb_ratio r.duration_seconds config.min_rtp_duration_seconds)
        duration_too_short
        (add_if (is_above r.interarrival_p95_ms config.max_rtp_interarrival_ms)
          interarrival_gap_too_large
          (add_if (ltb_ratio config.max_rtp_jitter_ms r.jitter_ms) jitter_implausible (
            add_if (ltb_ratio config.max_rtp_loss_ratio r.loss_ratio) loss_ratio_implausible (
              add_if (ltb_ratio config.max_rtp_out_of_order_ratio r.out_of_order_ratio)
                out_of_order_ratio_implausible
                (add_if
                  (is_below r.estimated_packetization_ms config.min_voice_packetization_ms
                    || is_above r.estimated_packetization_ms config.max_voice_packetization_ms)
                  packetization_implausible
                  (add_if
                    (ltb_ratio r.sequence_progression_ratio
                      config.min_rtp_sequence_progression_ratio)
                    sequence_not_progressing
                    (add_if
                      (ltb_ratio r.timestamp_progression_ratio
                        config.min_rtp_timestamp_progression_ratio)
                      timestamp_not_progressing
                      (add_if
                        (is_above r.timestamp_wallclock_error_ms
                          config.max_rtp_timestamp_wallclock_error_ms)
                        timestamp_wallclock_mismatch
                        (add_if (ltb r.packet_count config.min_rtp_qoe_packets) too_few_packets (
                          add_if (config.require_known_rtp_clock_rate && not r.clock_rate_known)
                            unknown_clock_rate [])))))))))))

-- The weaker test, without strict plausibility.
unfoldable pub old_valid : AnalyzerConfig → List Item → Bool
unfolding distinct_with
old_valid config packets =
    leb config.min_rtp_qoe_packets (length packets)
    && leb (max 2 (config.min_rtp_qoe_packets / 2))
        (distinct_with [] (map (λ i. i.1.sequence) packets))
    && leb 2 (distinct_with [] (map (λ i. i.1.timestamp) packets))

abbrev pub is_nil {ℓ} : {A : Type ℓ} → List A → Bool
is_nil [] = true
is_nil (x ∷ xs) = false

unfoldable pub is_plausible_by : AnalyzerConfig → List Item → List Reason → Bool
unfolding old_valid
is_plausible_by config packets reasons =
    if config.strict_rtp_plausibility then is_nil reasons else old_valid config packets

-- The figures of the packets in the order of their arrival. The verdict is not yet decided.
unfoldable pub figures_of : AnalyzerConfig → List Item → ℕ × Bool → RtpPlausibilityResult
unfolding seconds_of duration_of interarrival_stats rtp_sequence_stats ratio_or_zero rtp_jitter_ms
    progress_loop percentile
figures_of config packets (clock_rate, clock_rate_known) =
    let packet_count = length packets in
    let arrivals = map (λ i. seconds_of i.0.arrival_time) packets in
    let (p50_gap, p95_gap, max_gap) = interarrival_stats arrivals in
    let stats = rtp_sequence_stats (map (λ i. i.1.sequence) packets) in
    let progress = progress_loop clock_rate no_progress packets in
    record {
      is_plausible = false;
      reasons = [];
      packet_count = packet_count;
      duration_seconds = duration_of arrivals;
      sequence_progression_ratio = ratio_or_zero progress.sequence_forward (packet_count - 1);
      timestamp_progression_ratio =
          ratio_or_zero progress.timestamp_forward progress.timestamp_checked;
      timestamp_wallclock_error_ms = percentile progress.timestamp_errors_ms 95;
      interarrival_p50_ms = p50_gap;
      interarrival_p95_ms = p95_gap;
      interarrival_max_ms = max_gap;
      estimated_packetization_ms = percentile progress.packetization_ms_values 50;
      loss_ratio = ratio_or_zero stats.lost_packets stats.expected_packets;
      duplicate_ratio = ratio_or_zero stats.duplicate_packets packet_count;
      out_of_order_ratio = ratio_or_zero stats.out_of_order_packets packet_count;
      jitter_ms = rtp_jitter_ms packets clock_rate config.max_rtp_transit_delta_seconds;
      clock_rate_known = clock_rate_known;
    }

-- The rate of the first packet's payload type; -1 for none, which no table has.
unfoldable pub clock_rate_of : AnalyzerConfig → List Item → ℕ × Bool
unfolding rtp_clock_rate
clock_rate_of config [] = (config.default_rtp_clock_hz, false)
clock_rate_of config (item ∷ items) = rtp_clock_rate config item.1.payload_type

unfoldable pub check_sorted : AnalyzerConfig → List Item → RtpPlausibilityResult
unfolding figures_of clock_rate_of reasons_of is_plausible_by
check_sorted config packets =
    let figures = figures_of config packets (clock_rate_of config packets) in
    let reasons = reasons_of config figures in
    record figures { is_plausible = is_plausible_by config packets reasons; reasons = reasons }

unfoldable pub rtp_plausibility_check : List Item → AnalyzerConfig → RtpPlausibilityResult
unfolding by_arrival check_sorted
rtp_plausibility_check items config = check_sorted config (by_arrival (λ i. i.0) items)
