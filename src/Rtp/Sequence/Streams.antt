-- ===== src/Rtp/Sequence/Streams.antt =====
-- What `rtp_sequence_stats` reports for streams with gaps, late packets and repeated packets.
use srhc_observability_claud.Prelude.{
  ℕ, ◌+◌, ◌-◌, ◌%◌, ◌≤◌, ◌<◌, ◌≡◌, refl, true, some, List, [], ◌∷◌, length, arith, ap,
}
use srhc_observability_claud.Prelude.Int.{pos, pos_part, ◌+ℤ◌, ◌-ℤ◌, ◌≤ℤ◌}
use srhc_observability_claud.Rtp.Keys.{Key, add, add_range, Below, ◌<ℤ◌, Below-fresh, Below-mono}
use srhc_observability_claud.Rtp.Keys.Laws.{
  add-Below, add_range-Below, length-add_range, discard-fresh,
}
use srhc_observability_claud.Rtp.Sequence.{
  SequenceState, initial, seq_mod, max_dropout, is_forward, on_first, on_forward, classify,
  extend_rtp_sequence, sequence_step, sequence_step_at, sequence_loop, rtp_sequence_stats,
}

-- For every extended number h and every t less than 32768 away from it, the low 16 bits of t
-- are extended to t itself.
pub extend_rtp_sequence_recovers :
    (h t : ℕ)
    → t < h + 32768
    → h < t + 32768
    → extend_rtp_sequence (t % 65536) (some (pos h)) ≡ pos t
unfolding extend_rtp_sequence
extend_rtp_sequence_recovers h t near far = ground arith

unfoldable pub sum : List ℕ → ℕ
sum [] = 0
sum (g ∷ gaps) = g + sum gaps

-- The 16-bit numbers of packets that advance by the given steps.
abbrev pub advance : ℕ → List ℕ → List ℕ
advance h [] = []
advance h (g ∷ gaps) = ((h + g) % seq_mod) ∷ advance (h + g) gaps

abbrev pub AllSmall : List ℕ → Type 0
AllSmall [] = Unit
AllSmall (g ∷ gaps) = (0 < g) × (g ≤ max_dropout) × AllSmall gaps

is_forward_of_step : (h g : ℕ) → 0 < g → g ≤ max_dropout → is_forward (pos (h + g) -ℤ pos h) ≡ true
unfolding ◌-ℤ◌
is_forward_of_step h g rises small = ground arith

step_width : (h g : ℕ) → 0 < g → pos_part (pos (h + g) -ℤ pos h) ≡ g
unfolding ◌-ℤ◌
step_width h g rises = ground arith

range_end : (h g : ℕ) → 0 < g → pos h +ℤ pos 1 +ℤ pos (g - 1) ≤ℤ pos (h + g) +ℤ pos 1
unfolding ◌+ℤ◌
range_end h g rises = ground arith

range_inside : (h g : ℕ) → 0 < g → pos h +ℤ pos 1 +ℤ pos (g - 1) ≤ℤ pos (h + g - 1) +ℤ pos 1
unfolding ◌+ℤ◌
range_inside h g rises = ground arith

after_high : (h : ℕ) → pos h <ℤ pos h +ℤ pos 1
unfolding ◌+ℤ◌
after_high h = ground arith

abbrev new_key : SequenceState → ℕ → Key
new_key s t = record { segment = s.segment; ext = pos t }

abbrev after : SequenceState → ℕ → ℕ → SequenceState
after s h g = on_forward s (pos h) (pos (h + g)) (pos (h + g) -ℤ pos h)

module _ (s : SequenceState) (h g : ℕ) (at_high : s.highest_ext ≡ some (pos h))
    (seen : Below s.segment (pos h) s.seen) (missing : Below s.segment (pos h) s.missing)
    (rises : 0 < g) (small : g ≤ max_dropout) where
  step_is_forward : sequence_step s ((h + g) % seq_mod) ≡ after s h g
  unfolding sequence_step sequence_step_at classify
  step_is_forward = simp (
    at_high,
    extend_rtp_sequence_recovers h (h + g) (omega arith) (omega arith),
    Below-fresh s.segment (pos h) (pos (h + g)) s.seen seen (omega arith),
    is_forward_of_step h g rises small,
  )

  -- The numbers between the two are missing, and the new one is not among them.
  missing_after : (after s h g).missing ≡ add_range s.segment (pos h +ℤ pos 1) (g - 1) s.missing
  unfolding on_forward
  missing_after = rw (step_width h g rises) (
      discard-fresh (new_key s (h + g)) _ (
        Below-fresh s.segment (pos (h + g - 1)) (pos (h + g)) _
          (add_range-Below s.segment (pos h +ℤ pos 1) (pos (h + g - 1)) (g - 1) s.missing
            (range_inside h g rises)
            (Below-mono s.segment (pos h) (pos (h + g - 1)) s.missing missing (omega arith)))
          (omega arith)))

  after-seen : Below s.segment (pos (h + g)) (after s h g).seen
  unfolding on_forward
  after-seen =
      add-Below (new_key s (h + g)) s.segment (pos (h + g)) s.seen (omega arith) (λ _. omega arith)
        (Below-mono s.segment (pos h) (pos (h + g)) s.seen seen (omega arith))

  after-missing : Below s.segment (pos (h + g)) (after s h g).missing
  after-missing = rw missing_after (
      add_range-Below s.segment (pos h +ℤ pos 1) (pos (h + g)) (g - 1) s.missing
        (range_end h g rises)
        (Below-mono s.segment (pos h) (pos (h + g)) s.missing missing (omega arith)))

  lost_after : length (after s h g).missing + 1 ≡ length s.missing + g
  lost_after = omega (
    arith,
    ap (length {A = Key}) missing_after,
    length-add_range s.segment (pos h) (pos h +ℤ pos 1) (g - 1) s.missing missing (after_high h),
  )

record Advanced (s t : SequenceState) (gaps : List ℕ) : Type 0 where
  unique : t.valid_unique ≡ s.valid_unique + length gaps
  lost : length t.missing + length gaps ≡ length s.missing + sum gaps
  duplicates : t.duplicate_packets ≡ s.duplicate_packets
  misordered : t.out_of_order_packets ≡ s.out_of_order_packets

loop-cons :
    (s : SequenceState) (sequence : ℕ) (headers : List ℕ)
    → sequence_loop s (sequence ∷ headers) ≡ sequence_loop (sequence_step s sequence) headers
unfolding sequence_loop
loop-cons s sequence headers = refl

loop-nil : (s : SequenceState) → sequence_loop s [] ≡ s
unfolding sequence_loop
loop-nil s = refl

loop-Advanced :
    (s : SequenceState) (h : ℕ) (gaps : List ℕ)
    → s.highest_ext ≡ some (pos h)
    → Below s.segment (pos h) s.seen
    → Below s.segment (pos h) s.missing
    → AllSmall gaps
    → Advanced s (sequence_loop s (advance h gaps)) gaps
unfolding sum on_forward
loop-Advanced s h [] at_high seen missing ok = rw loop-nil (omega arith)
loop-Advanced s h (g ∷ gaps) at_high seen missing (rises, small, ok) =
    rw (loop-cons, step_is_forward s h g at_high seen missing rises small)
      (let rest =
          loop-Advanced (after s h g) (h + g) gaps refl
            (after-seen s h g at_high seen missing rises small)
            (after-missing s h g at_high seen missing rises small) ok in
        omega (arith, rest, lost_after s h g at_high seen missing rises small))

-- For a stream that starts at a 16-bit number and whose every next packet lies 1 to 3000 numbers
-- further (modulo 65536, with as many wrap-arounds as there are), rtp_sequence_stats expects one
-- packet for each number from the first to the last, reports as lost the numbers that no packet
-- had, and reports no duplicate and no out-of-order packet.
pub rtp_sequence_stats_of_gaps :
    (start : ℕ) (gaps : List ℕ)
    → start < 65536
    → AllSmall gaps
    → let stats = rtp_sequence_stats (start ∷ advance start gaps) in
      (stats.expected_packets ≡ 1 + sum gaps)
      × (stats.lost_packets + length gaps ≡ sum gaps)
      × (stats.duplicate_packets ≡ 0)
      × (stats.out_of_order_packets ≡ 0)
unfolding rtp_sequence_stats sequence_step on_first add
rtp_sequence_stats_of_gaps start gaps fits ok =
    let end =
      loop-Advanced (on_first initial start) start gaps refl (omega arith, λ _. omega arith, tt) tt
        ok in
    omega (arith, end)
