-- ===== src/Rtp/Sequence/Late.antt =====
-- One more packet after a stream: a late one, a repeated one, and a stray one.
use srhc_observability_claud.Prelude.{
  ℕ, ◌+◌, ◌%◌, ◌≤◌, ◌<◌, ◌≡◌, refl, true, false, some, List, [], ◌∷◌, ◌++◌, arith, ap, ◌∙◌,
  if◌then◌else◌,
}
use srhc_observability_claud.Prelude.Int.{ℤ, pos, ◌-ℤ◌}
use srhc_observability_claud.Rtp.Keys.{Key, contains}
use srhc_observability_claud.Rtp.Keys.Laws.{Disjoint-contains, length-discard}
use srhc_observability_claud.Rtp.Sequence.{
  SequenceState, initial, seq_mod, is_forward, is_misorder, is_bad, on_misorder, on_restart,
  classify, extend_rtp_sequence, sequence_step, sequence_step_at, sequence_loop, stats_of,
  rtp_sequence_stats,
}
use srhc_observability_claud.Rtp.Sequence.Accounting.{sequence_loop-IsAccounted}
use srhc_observability_claud.Rtp.Sequence.Accounting.Step.{IsAccounted, initial-IsAccounted}
use srhc_observability_claud.Rtp.Sequence.Streams.{extend_rtp_sequence_recovers}

loop-append :
    (s : SequenceState) (headers more : List ℕ)
    → sequence_loop s (headers ++ more) ≡ sequence_loop (sequence_loop s headers) more
unfolding sequence_loop
loop-append s [] more = refl
loop-append s (sequence ∷ headers) more = loop-append (sequence_step s sequence) headers more

-- The state after the packets that were read.
abbrev pub state_after : List ℕ → SequenceState
state_after headers = sequence_loop initial headers

state_after-snoc :
    (headers : List ℕ) (sequence : ℕ)
    → state_after (headers ++ sequence ∷ []) ≡ sequence_step (state_after headers) sequence
state_after-snoc headers sequence =
    loop-append initial headers (sequence ∷ []) ∙ unfold sequence_loop in refl

stats-snoc :
    (headers : List ℕ) (sequence : ℕ)
    → rtp_sequence_stats (headers ++ sequence ∷ [])
      ≡ stats_of (sequence_step (state_after headers) sequence)
unfolding rtp_sequence_stats
stats-snoc headers sequence = ap stats_of (state_after-snoc headers sequence)

accounted : (headers : List ℕ) → IsAccounted (state_after headers)
accounted headers = sequence_loop-IsAccounted initial headers (λ _. refl) initial-IsAccounted

abbrev pub key_of : List ℕ → ℕ → Key
key_of headers t = record { segment = (state_after headers).segment; ext = pos t }

is_misorder_of_late : (h t : ℕ) → t < h → h ≤ t + 100 → is_misorder (pos t -ℤ pos h) ≡ true
unfolding ◌-ℤ◌
is_misorder_of_late h t late near = ground arith

not_forward_of_late : (h t : ℕ) → t < h → is_forward (pos t -ℤ pos h) ≡ false
unfolding ◌-ℤ◌
not_forward_of_late h t late = ground arith

late_step :
    (s : SequenceState) (h t : ℕ)
    → s.highest_ext ≡ some (pos h)
    → contains (record { segment = s.segment; ext = pos t }) s.seen ≡ false
    → t < h
    → h ≤ t + 100
    → sequence_step s (t % seq_mod) ≡ on_misorder s (pos t)
unfolding sequence_step sequence_step_at classify
late_step s h t at_high fresh late near = simp (
  at_high,
  extend_rtp_sequence_recovers h t (omega arith) (omega arith),
  fresh,
  not_forward_of_late h t late,
  is_misorder_of_late h t late near,
)

-- When the highest extended number after some packets is h, a packet whose extended number t is
-- counted missing and lies 1 to 100 below h takes one from the lost count, adds one to the
-- out-of-order count, and changes neither the expected count nor the duplicates.
pub late_packet_repairs_loss :
    (headers : List ℕ) (h t : ℕ)
    → (state_after headers).highest_ext ≡ some (pos h)
    → contains (key_of headers t) (state_after headers).missing ≡ true
    → t < h
    → h ≤ t + 100
    → let before = rtp_sequence_stats headers in
      let stats = rtp_sequence_stats (headers ++ (t % seq_mod) ∷ []) in
      (stats.expected_packets ≡ before.expected_packets)
      × (stats.lost_packets + 1 ≡ before.lost_packets)
      × (stats.duplicate_packets ≡ before.duplicate_packets)
      × (stats.out_of_order_packets ≡ before.out_of_order_packets + 1)
late_packet_repairs_loss headers h t at_high held late near =
    let books = accounted headers in
    let fresh =
      Disjoint-contains (key_of headers t) (state_after headers).missing (state_after headers).seen
        books.apart held in
    let one_less =
      length-discard (key_of headers t) (state_after headers).missing books.missing_once held in
    rw
      (
        stats-snoc headers (t % seq_mod),
        late_step (state_after headers) h t at_high fresh late near,
      )
      (unfold rtp_sequence_stats on_misorder in rw held (omega (arith, one_less)))

repeated_step :
    (s : SequenceState) (h t : ℕ)
    → s.highest_ext ≡ some (pos h)
    → contains (record { segment = s.segment; ext = pos t }) s.seen ≡ true
    → t < h + 32768
    → h < t + 32768
    → sequence_step s (t % seq_mod) ≡ record s { duplicate_packets = s.duplicate_packets + 1 }
unfolding sequence_step sequence_step_at classify
repeated_step s h t at_high known near far =
    simp (at_high, extend_rtp_sequence_recovers h t near far, known)

-- When the highest extended number after some packets is h, a packet whose extended number t was
-- seen in this segment and lies less than 32768 away from h adds one to the duplicates and
-- changes no other count.
repeated_packet_is_duplicate :
    (headers : List ℕ) (h t : ℕ)
    → (state_after headers).highest_ext ≡ some (pos h)
    → contains (key_of headers t) (state_after headers).seen ≡ true
    → t < h + 32768
    → h < t + 32768
    → let before = rtp_sequence_stats headers in
      rtp_sequence_stats (headers ++ (t % seq_mod) ∷ [])
      ≡ record before { duplicate_packets = before.duplicate_packets + 1 }
repeated_packet_is_duplicate headers h t at_high known near far =
    rw
      (
        stats-snoc headers (t % seq_mod),
        repeated_step (state_after headers) h t at_high known near far,
      )
      (unfold rtp_sequence_stats in refl)

-- A number that is neither known, nor a small gap forward, nor a small step back.
pub record IsStray (s : SequenceState) (high : ℤ) (sequence : ℕ) : Type 0 where
  pub fresh :
      contains
        (record { segment = s.segment; ext = extend_rtp_sequence sequence (some high) })
        s.seen
      ≡ false
  pub not_forward : is_forward (extend_rtp_sequence sequence (some high) -ℤ high) ≡ false
  pub not_back : is_misorder (extend_rtp_sequence sequence (some high) -ℤ high) ≡ false

stray_step :
    (s : SequenceState) (high : ℤ) (sequence : ℕ)
    → s.highest_ext ≡ some high
    → IsStray s high sequence
    → sequence_step s sequence ≡ (
        if is_bad sequence s.bad_seq
        then on_restart s sequence
        else record s { bad_seq = some ((sequence + 1) % seq_mod) })
unfolding sequence_step sequence_step_at classify
stray_step s high sequence at_high stray =
    simp (at_high, stray.fresh, stray.not_forward, stray.not_back)

-- The state of a stream that waits for the successor of a stray number.
abbrev awaiting : SequenceState → ℕ → SequenceState
awaiting s sequence = record s { bad_seq = some ((sequence + 1) % seq_mod) }

module _ (s : SequenceState) (high : ℤ) (sequence : ℕ) (at_high : s.highest_ext ≡ some high)
    (unasked : is_bad sequence s.bad_seq ≡ false) (first : IsStray s high sequence) where
  first_stray : sequence_step s sequence ≡ awaiting s sequence
  first_stray = rw (stray_step s high sequence at_high first, unasked)

  second_stray :
      IsStray s high ((sequence + 1) % seq_mod)
      → sequence_step (awaiting s sequence) ((sequence + 1) % seq_mod)
        ≡ on_restart (awaiting s sequence) ((sequence + 1) % seq_mod)
  second_stray second =
      rw
        (stray_step (awaiting s sequence) high ((sequence + 1) % seq_mod) at_high (record {
          fresh = second.fresh;
          not_forward = second.not_forward;
          not_back = second.not_back;
        }))
        (ground arith)

-- When some packets were read, a stray number that is not the awaited one changes no count. If
-- the number that follows it modulo 65536 is stray as well and comes next, the two together start
-- a new segment at that second number, with one more packet expected and none more lost.
pub stray_packet_needs_confirmation :
    (headers : List ℕ) (high : ℤ) (sequence : ℕ)
    → (state_after headers).highest_ext ≡ some high
    → is_bad sequence (state_after headers).bad_seq ≡ false
    → IsStray (state_after headers) high sequence
    → IsStray (state_after headers) high ((sequence + 1) % seq_mod)
    → let before = rtp_sequence_stats headers in
      let later = headers ++ sequence ∷ ((sequence + 1) % seq_mod) ∷ [] in
      (rtp_sequence_stats (headers ++ sequence ∷ []) ≡ before)
      × (rtp_sequence_stats later
          ≡ record before { expected_packets = before.expected_packets + 1 })
      × ((state_after later).segment ≡ (state_after headers).segment + 1)
      × ((state_after later).highest_ext ≡ some (pos ((sequence + 1) % seq_mod)))
stray_packet_needs_confirmation headers high sequence at_high unasked first second =
    let s = state_after headers in
    let next = (sequence + 1) % seq_mod in
    let ends : state_after (headers ++ sequence ∷ next ∷ [])
        ≡ on_restart (awaiting s sequence) next =
      loop-append initial headers (sequence ∷ next ∷ [])
      ∙ (unfold sequence_loop in
          rw (first_stray s high sequence at_high unasked first)
            (second_stray s high sequence at_high unasked first second)) in
    (
      rw (stats-snoc headers sequence, first_stray s high sequence at_high unasked first)
          (unfold rtp_sequence_stats in refl),
      (unfold rtp_sequence_stats on_restart in ap stats_of ends ∙ ground arith),
      (unfold on_restart in ap (λ (t : SequenceState). t.segment) ends),
      (unfold on_restart in ap (λ (t : SequenceState). t.highest_ext) ends),
    )
