-- ===== src/Media/Plausibility/Limits.antt =====
-- What `rtp_plausibility_check` accepts.
use srhc_observability_claud.Prelude.{
  Bool-cases, inl, inr, sym, ◌∙◌, leb→le, ℕ, ◌≡◌, refl, ◌≤◌, Bool, true, false, not, ◌&&◌, ◌||◌,
  List, ltb, arith,
}
use srhc_observability_claud.Prelude.Ratio.{ratio, ltb_ratio}
use srhc_observability_claud.Prelude.Sort.{length-sorted}
use srhc_observability_claud.Media.Config.{AnalyzerConfig}
use srhc_observability_claud.Media.Plausibility.{
  length, clock_rate_of, old_valid, figures_of, is_plausible_by, rtp_plausibility_check,
  check_sorted, RtpPlausibilityResult, add_if, is_nil, is_above, is_below, reasons_of,
}
use srhc_observability_claud.Media.Plausibility.Rounds.{by_arrival, Item, Reason}

-- Every figure is within the limits of the configuration.
pub record WithinLimits (config : AnalyzerConfig) (r : RtpPlausibilityResult) : Type 0 where
  pub duplicates : ltb_ratio config.max_rtp_duplicate_ratio r.duplicate_ratio ≡ false
  pub lasting : ltb_ratio (ratio 0 1) r.duration_seconds ≡ true
  pub long : ltb_ratio r.duration_seconds config.min_rtp_duration_seconds ≡ false
  pub gap : is_above r.interarrival_p95_ms config.max_rtp_interarrival_ms ≡ false
  pub jitter : ltb_ratio config.max_rtp_jitter_ms r.jitter_ms ≡ false
  pub loss : ltb_ratio config.max_rtp_loss_ratio r.loss_ratio ≡ false
  pub order : ltb_ratio config.max_rtp_out_of_order_ratio r.out_of_order_ratio ≡ false
  pub packetization_min :
      is_below r.estimated_packetization_ms config.min_voice_packetization_ms ≡ false
  pub packetization_max :
      is_above r.estimated_packetization_ms config.max_voice_packetization_ms ≡ false
  pub sequence :
      ltb_ratio r.sequence_progression_ratio config.min_rtp_sequence_progression_ratio ≡ false
  pub timestamp :
      ltb_ratio r.timestamp_progression_ratio config.min_rtp_timestamp_progression_ratio ≡ false
  pub wallclock :
      is_above r.timestamp_wallclock_error_ms config.max_rtp_timestamp_wallclock_error_ms ≡ false
  pub packets : config.min_rtp_qoe_packets ≤ r.packet_count
  pub clock : (config.require_known_rtp_clock_rate && not r.clock_rate_known) ≡ false

add_if-nil :
    (b : Bool) (reason : Reason) (reasons : List Reason)
    → is_nil (add_if b reason reasons) ≡ true
    → (b ≡ false) × (is_nil reasons ≡ true)
add_if-nil true reason reasons h = absurd (cc h)
add_if-nil false reason reasons h = (refl, h)

or_false : (a b : Bool) → (a || b) ≡ false → (a ≡ false) × (b ≡ false)
or_false true b h = absurd (cc h)
or_false false b h = (refl, h)

not-false : (a : Bool) → not a ≡ false → a ≡ true
not-false true h = refl
not-false false h = absurd (cc h)

enough : (a b : ℕ) → ltb a b ≡ false → b ≤ a
enough a b h = ground arith

reasons_of-nil :
    (config : AnalyzerConfig) (r : RtpPlausibilityResult)
    → is_nil (reasons_of config r) ≡ true
    → WithinLimits config r
unfolding reasons_of
reasons_of-nil config r h =
    let (duplicates, h1) = add_if-nil _ _ _ h in
    let (duration, h2) = add_if-nil _ _ _ h1 in
    let (gap, h3) = add_if-nil _ _ _ h2 in
    let (jitter, h4) = add_if-nil _ _ _ h3 in
    let (loss, h5) = add_if-nil _ _ _ h4 in
    let (order, h6) = add_if-nil _ _ _ h5 in
    let (packetization, h7) = add_if-nil _ _ _ h6 in
    let (sequence, h8) = add_if-nil _ _ _ h7 in
    let (timestamp, h9) = add_if-nil _ _ _ h8 in
    let (wallclock, h10) = add_if-nil _ _ _ h9 in
    let (packets, h11) = add_if-nil _ _ _ h10 in
    let (clock, h12) = add_if-nil _ _ _ h11 in
    let (lasting, long) = or_false _ _ duration in
    let (low, high) = or_false _ _ packetization in
    record {
      duplicates = duplicates;
      lasting = not-false _ lasting;
      long = long;
      gap = gap;
      jitter = jitter;
      loss = loss;
      order = order;
      packetization_min = low;
      packetization_max = high;
      sequence = sequence;
      timestamp = timestamp;
      wallclock = wallclock;
      packets = enough r.packet_count config.min_rtp_qoe_packets packets;
      clock = clock;
    }

and_left : (a b : Bool) → (a && b) ≡ true → a ≡ true
and_left true b h = refl
and_left false b h = absurd (cc h)

check_sorted-WithinLimits :
    (config : AnalyzerConfig) (items : List Item)
    → config.strict_rtp_plausibility ≡ true
    → (check_sorted config items).is_plausible ≡ true
    → WithinLimits config (check_sorted config items)
unfolding check_sorted is_plausible_by
check_sorted-WithinLimits config items s = simp s (λ h.
    let w = reasons_of-nil config (figures_of config items (clock_rate_of config items)) h in
    record {
      duplicates = w.duplicates;
      lasting = w.lasting;
      long = w.long;
      gap = w.gap;
      jitter = w.jitter;
      loss = w.loss;
      order = w.order;
      packetization_min = w.packetization_min;
      packetization_max = w.packetization_max;
      sequence = w.sequence;
      timestamp = w.timestamp;
      wallclock = w.wallclock;
      packets = w.packets;
      clock = w.clock;
    })

-- Under strict plausibility, rtp_plausibility_check accepts packets only if every figure that it
-- reports of them is within the configured limits: the number of packets, the duration, the two
-- progressions, the error against the clock, the packetization, the gaps, the three ratios, the
-- jitter, and the clock rate where it has to be known.
pub rtp_plausibility_check-WithinLimits :
    (items : List Item) (config : AnalyzerConfig)
    → config.strict_rtp_plausibility ≡ true
    → (rtp_plausibility_check items config).is_plausible ≡ true
    → WithinLimits config (rtp_plausibility_check items config)
unfolding rtp_plausibility_check
rtp_plausibility_check-WithinLimits items config s h =
    check_sorted-WithinLimits config (by_arrival (λ i. i.0) items) s h

by_old_test :
    (config : AnalyzerConfig) (items : List Item)
    → config.strict_rtp_plausibility ≡ false
    → (check_sorted config items).is_plausible ≡ old_valid config items
unfolding check_sorted is_plausible_by
by_old_test config items s = simp s

packets_enough :
    (config : AnalyzerConfig) (items : List Item)
    → (check_sorted config items).is_plausible ≡ true
    → config.min_rtp_qoe_packets ≤ length items
unfolding check_sorted figures_of old_valid
packets_enough config items h = elim (Bool-cases config.strict_rtp_plausibility) [
  | inl s ↦ (check_sorted-WithinLimits config items s h).packets
  | inr s ↦
      leb→le config.min_rtp_qoe_packets (length items)
        (and_left _ _ (and_left _ _ (sym (by_old_test config items s) ∙ h)))
]

-- Strict or not, it accepts no fewer packets than the configured minimum.
pub plausible_enough :
    (items : List Item) (config : AnalyzerConfig)
    → (rtp_plausibility_check items config).is_plausible ≡ true
    → config.min_rtp_qoe_packets ≤ length items
unfolding rtp_plausibility_check by_arrival
plausible_enough items config h =
    let n : length (by_arrival (λ i. i.0) items) ≡ length items = length-sorted _ items in
    omega (arith, n, packets_enough config (by_arrival (λ i. i.0) items) h)
