-- ===== src/Rtp/Sequence/Accounting.antt =====
-- The books that `rtp_sequence_stats` keeps: what was seen and what is missing.
pub mod Step
use srhc_observability_claud.Rtp.Sequence.Accounting.Step.{
  Bounded, IsAccounted, initial-IsAccounted, sequence_step-IsAccounted,
}
use srhc_observability_claud.Prelude.{
  ℕ, ◌+◌, ◌-◌, ◌≤◌, ◌<◌, ◌≡◌, refl, true, false, Option, none, some, List, [], ◌∷◌, length, arith,
  Bool-cases, inl, inr, ◌∙◌, ap, ◌≢◌,
}
use srhc_observability_claud.Prelude.Int.{ℤ, pos, pos_part, ◌+ℤ◌, ◌-ℤ◌, ◌≤ℤ◌}
use srhc_observability_claud.Rtp.Keys.{
  Key, contains, add, IsNodup, Disjoint, Below, ◌<ℤ◌, Below-fresh_segment, Below-mono,
  Below-next_segment,
}
use srhc_observability_claud.Rtp.Keys.Laws.{
  length-add_fresh, add-IsNodup, discard-IsNodup, discard-Below, add-Below, Disjoint-claim,
  Disjoint-add, add_range-IsNodup, add_range-Disjoint, add_range-Below,
}
use srhc_observability_claud.Rtp.Sequence.{
  SequenceState, initial, is_forward, is_misorder, is_bad, on_first, on_forward, on_misorder,
  on_restart, classify, extend_rtp_sequence, sequence_step, sequence_step_at, sequence_loop,
  rtp_sequence_stats,
}

-- Once a packet was counted there is a highest number.
step_has_highest :
    (s : SequenceState) (sequence : ℕ) → (sequence_step s sequence).highest_ext ≢ none
unfolding sequence_step on_first classify on_forward on_misorder on_restart
step_has_highest s sequence e = ground arith

pub sequence_loop-IsAccounted :
    (s : SequenceState) (headers : List ℕ)
    → (s.highest_ext ≡ none → s.valid_unique ≡ 0)
    → IsAccounted s
    → IsAccounted (sequence_loop s headers)
unfolding sequence_loop
sequence_loop-IsAccounted s [] start h = h
sequence_loop-IsAccounted s (sequence ∷ headers) start h =
    sequence_loop-IsAccounted (sequence_step s sequence) headers
      (λ e. absurd (step_has_highest s sequence e)) (sequence_step-IsAccounted s sequence start h)

-- Every packet is counted at most once, as a unique packet or as a duplicate.
step_count :
    (s : SequenceState) (sequence : ℕ)
    → let t = sequence_step s sequence in
      (t.valid_unique + t.duplicate_packets ≤ s.valid_unique + s.duplicate_packets + 1)
      × (t.out_of_order_packets + s.valid_unique ≤ s.out_of_order_packets + t.valid_unique)
unfolding sequence_step on_first classify on_forward on_misorder on_restart
step_count s sequence = ground arith

loop_count :
    (s : SequenceState) (headers : List ℕ)
    → let t = sequence_loop s headers in
      (t.valid_unique + t.duplicate_packets ≤ s.valid_unique + s.duplicate_packets + length headers)
      × (t.out_of_order_packets + s.valid_unique ≤ s.out_of_order_packets + t.valid_unique)
unfolding sequence_loop
loop_count s [] = omega arith
loop_count s (sequence ∷ headers) =
    omega (arith, step_count s sequence, loop_count (sequence_step s sequence) headers)

-- For every list of sequence numbers, with s the state at the end of the loop of
-- rtp_sequence_stats: no key is seen twice or missing twice, no missing key is also a seen one,
-- the expected count is the number of seen keys plus the lost count, the lost count is the
-- number of missing keys, seen keys and duplicates together are at most the packets read, and
-- the out-of-order packets are at most the seen keys.
pub rtp_sequence_stats_accounts :
    (headers : List ℕ)
    → let s = sequence_loop initial headers in
      let stats = rtp_sequence_stats headers in
      IsNodup s.seen
      × IsNodup s.missing
      × Disjoint s.missing s.seen
      × (stats.expected_packets ≡ length s.seen + stats.lost_packets)
      × (stats.lost_packets ≡ length s.missing)
      × (length s.seen + stats.duplicate_packets ≤ length headers)
      × (stats.out_of_order_packets ≤ length s.seen)
unfolding rtp_sequence_stats
rtp_sequence_stats_accounts headers =
    let books = sequence_loop-IsAccounted initial headers (λ _. refl) initial-IsAccounted in
    let counts = loop_count initial headers in
    (
      books.seen_once,
      books.missing_once,
      books.apart,
      omega (arith, books.counted),
      refl,
      omega (arith, books.counted),
      omega (arith, books.counted),
    )
