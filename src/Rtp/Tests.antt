-- ===== src/Rtp/Tests.antt =====
-- Tests of the RTP modules, and the theorems at concrete inputs.
use srhc_observability_claud.Rtp.Timestamp.{rtp_timestamp_delta}
use srhc_observability_claud.Prelude.Int.{ℤ}
use srhc_observability_claud.Prelude.{
  ℕ, ◌+◌, ◌%◌, ◌≤◌, ◌≡◌, refl, some, List, [], ◌∷◌, ◌++◌, length, arith,
}
use srhc_observability_claud.Prelude.Int.{pos}
use srhc_observability_claud.Rtp.Keys.{add, discard, add_range, IsNodup, Disjoint}
use srhc_observability_claud.Rtp.Sequence.{
  initial, seq_mod, extend_rtp_sequence, on_first, on_forward, on_misorder, classify, sequence_step,
  sequence_loop, rtp_sequence_stats,
}
use srhc_observability_claud.Rtp.Sequence.Accounting.{rtp_sequence_stats_accounts}
use srhc_observability_claud.Rtp.Sequence.Streams.{
  sum, advance, extend_rtp_sequence_recovers, rtp_sequence_stats_of_gaps,
}
use srhc_observability_claud.Rtp.Sequence.Late.{
  state_after, late_packet_repairs_loss, stray_packet_needs_confirmation,
}

wrap_test : rtp_sequence_stats (65534 ∷ 65535 ∷ 2 ∷ 1 ∷ 1 ∷ []) ≡ record {
  expected_packets = 5;
  lost_packets = 1;
  duplicate_packets = 1;
  out_of_order_packets = 1;
}
unfolding rtp_sequence_stats sequence_step on_first classify extend_rtp_sequence on_forward
    on_misorder add discard add_range
wrap_test = refl

abbrev shuffled : List ℕ
shuffled = 10 ∷ 12 ∷ 11 ∷ 11 ∷ []

rtp_sequence_stats_accounts_example :
    let s = sequence_loop initial shuffled in
    let stats = rtp_sequence_stats shuffled in
    IsNodup s.seen
    × IsNodup s.missing
    × Disjoint s.missing s.seen
    × (stats.expected_packets ≡ length s.seen + stats.lost_packets)
    × (stats.lost_packets ≡ length s.missing)
    × (length s.seen + stats.duplicate_packets ≤ length shuffled)
    × (stats.out_of_order_packets ≤ length s.seen)
rtp_sequence_stats_accounts_example = rtp_sequence_stats_accounts shuffled

extend_rtp_sequence_recovers_example :
    extend_rtp_sequence (65540 % 65536) (some (pos 65534)) ≡ pos 65540
extend_rtp_sequence_recovers_example =
    extend_rtp_sequence_recovers 65534 65540 (omega arith) (omega arith)

abbrev steps : List ℕ
steps = 1 ∷ 3 ∷ 1 ∷ []

rtp_sequence_stats_of_gaps_example :
    let stats = rtp_sequence_stats (65534 ∷ advance 65534 steps) in
    (stats.expected_packets ≡ 1 + sum steps)
    × (stats.lost_packets + length steps ≡ sum steps)
    × (stats.duplicate_packets ≡ 0)
    × (stats.out_of_order_packets ≡ 0)
rtp_sequence_stats_of_gaps_example =
    rtp_sequence_stats_of_gaps 65534 steps (omega arith) (omega arith)

abbrev gapped : List ℕ
gapped = 10 ∷ 13 ∷ []

late_packet_repairs_loss_example :
    let before = rtp_sequence_stats gapped in
    let stats = rtp_sequence_stats (gapped ++ (11 % seq_mod) ∷ []) in
    (stats.expected_packets ≡ before.expected_packets)
    × (stats.lost_packets + 1 ≡ before.lost_packets)
    × (stats.duplicate_packets ≡ before.duplicate_packets)
    × (stats.out_of_order_packets ≡ before.out_of_order_packets + 1)
unfolding rtp_sequence_stats sequence_step on_first classify extend_rtp_sequence on_forward add
    discard add_range
late_packet_repairs_loss_example =
    late_packet_repairs_loss gapped 13 11 refl refl (omega arith) (omega arith)

stray_packet_needs_confirmation_example :
    let before = rtp_sequence_stats gapped in
    let later = gapped ++ 20000 ∷ ((20000 + 1) % seq_mod) ∷ [] in
    (rtp_sequence_stats (gapped ++ 20000 ∷ []) ≡ before)
    × (rtp_sequence_stats later ≡ record before { expected_packets = before.expected_packets + 1 })
    × ((state_after later).segment ≡ (state_after gapped).segment + 1)
    × ((state_after later).highest_ext ≡ some (pos ((20000 + 1) % seq_mod)))
unfolding rtp_sequence_stats sequence_step on_first classify extend_rtp_sequence on_forward add
    discard add_range
stray_packet_needs_confirmation_example =
    stray_packet_needs_confirmation gapped (pos 13) 20000 refl refl
      (record { fresh = refl; not_forward = refl; not_back = refl })
      (record { fresh = refl; not_forward = refl; not_back = refl })

-- A difference across the wrap of the timestamps.
abbrev wrapped : ℤ
wrapped = rtp_timestamp_delta 5 4294967290
