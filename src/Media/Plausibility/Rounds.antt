-- ===== src/Media/Plausibility/Rounds.antt =====
-- The loop of rtp_plausibility_check over the packets: what it counts and collects.
use srhc_observability_claud.Prelude.{ℕ, ◌+◌, Option, none, some, List, [], ◌∷◌, if◌then◌else◌}
use srhc_observability_claud.Prelude.Int.{ℤ, pos, ltb_ℤ, ◌-ℤ◌}
use srhc_observability_claud.Prelude.Ratio.{
  Ratio, ratio, sub_ratio, scale_ratio, abs_ratio, ltb_ratio,
}
use srhc_observability_claud.Prelude.Sort.{sorted}
use srhc_observability_claud.Rtp.Frame.{UdpPacket, RtpHeader}
use srhc_observability_claud.Rtp.Sequence.{extend_rtp_sequence, is_forward}
use srhc_observability_claud.Rtp.Timestamp.{rtp_timestamp_delta}
use srhc_observability_claud.Media.Timing.{seconds_of}

abbrev pub Item : Type 0
Item = UdpPacket × RtpHeader

-- `sorted(items, key=lambda item: item[0].arrival_time)`
unfoldable pub by_arrival {ℓ} : {A : Type ℓ} → (A → UdpPacket) → List A → List A
unfolding sorted ltb_ratio seconds_of
by_arrival packet_of items =
    sorted
      (λ a b.
        ltb_ratio (seconds_of (packet_of a).arrival_time) (seconds_of (packet_of b).arrival_time))
      items

-- The reasons, in the order of their names.
pub data Reason : Type 0 where
  duplicate_ratio_implausible duration_too_short interarrival_gap_too_large : Reason
  jitter_implausible loss_ratio_implausible out_of_order_ratio_implausible : Reason
  packetization_implausible sequence_not_progressing timestamp_not_progressing : Reason
  timestamp_wallclock_mismatch too_few_packets unknown_clock_rate : Reason

-- The local variables of the loop.
pub record Progress : Type 0 where
  pub highest_ext : Option ℤ
  pub previous : Option Item
  pub sequence_forward : ℕ
  pub timestamp_forward : ℕ
  pub timestamp_checked : ℕ
  pub timestamp_errors_ms : List Ratio
  pub packetization_ms_values : List Ratio

abbrev pub no_progress : Progress
no_progress = record {
  highest_ext = none;
  previous = none;
  sequence_forward = 0;
  timestamp_forward = 0;
  timestamp_checked = 0;
  timestamp_errors_ms = [];
  packetization_ms_values = [];
}

-- A timestamp that moved forward: the error against the clock and the packetization.
unfoldable pub check_forward : ℕ → Item → Item → ℤ → Progress → Progress
unfolding ratio sub_ratio seconds_of abs_ratio scale_ratio
check_forward clock_rate item before ts_delta p =
    let rtp_delta : Ratio = record { num = ts_delta; den = clock_rate } in
    let arrival_delta =
      sub_ratio (seconds_of item.0.arrival_time) (seconds_of before.0.arrival_time) in
    record p {
      timestamp_checked = p.timestamp_checked + 1;
      timestamp_forward = p.timestamp_forward + 1;
      timestamp_errors_ms =
          scale_ratio 1000 (abs_ratio (sub_ratio arrival_delta rtp_delta)) ∷ p.timestamp_errors_ms;
      packetization_ms_values = scale_ratio 1000 rtp_delta ∷ p.packetization_ms_values;
    }

unfoldable pub check_timestamp : ℕ → Item → Option Item → Progress → Progress
unfolding rtp_timestamp_delta check_forward
check_timestamp clock_rate item none p = p
check_timestamp clock_rate item (some before) p =
    let ts_delta = rtp_timestamp_delta item.1.timestamp before.1.timestamp in
    if ltb_ℤ (pos 0) ts_delta
    then check_forward clock_rate item before ts_delta p
    else record p { timestamp_checked = p.timestamp_checked + 1 }

-- A packet once one was seen; `candidate` is its extended number.
unfoldable pub progress_from : ℕ → Item → ℤ → ℤ → Progress → Progress
unfolding check_timestamp ◌-ℤ◌
progress_from clock_rate item highest candidate p =
    if is_forward (candidate -ℤ highest)
    then (let q =
          check_timestamp clock_rate item p.previous
            (record p { sequence_forward = p.sequence_forward + 1 }) in
        record q { highest_ext = some candidate; previous = some item })
    else record p { previous = some item }

unfoldable pub progress_step : ℕ → Item → Option ℤ → Progress → Progress
unfolding extend_rtp_sequence progress_from
progress_step clock_rate item none p = record p {
  highest_ext = some (pos item.1.sequence);
  previous = some item;
}
progress_step clock_rate item (some highest) p =
    progress_from clock_rate item highest (extend_rtp_sequence item.1.sequence (some highest)) p

unfoldable pub progress_loop : ℕ → Progress → List Item → Progress
unfolding progress_step
progress_loop clock_rate p [] = p
progress_loop clock_rate p (item ∷ items) =
    progress_loop clock_rate (progress_step clock_rate item p.highest_ext p) items
