-- ===== src/Rtp/Sequence.antt =====
-- Sequence numbers: `extend_rtp_sequence` and `rtp_sequence_stats`. Python's `int` is ℤ where a
-- value can be negative, and the sets are lists without repetition (Rtp/Keys).
pub mod Accounting
pub mod Streams
pub mod Late
use srhc_observability_claud.Prelude.{
  ℕ, ◌+◌, ◌-◌, ◌*◌, ◌/◌, ◌%◌, Bool, false, ◌&&◌, Option, none, some, List, [], ◌∷◌, length, leb,
  ◌==◌, if◌then◌else◌,
}
use srhc_observability_claud.Prelude.Int.{ℤ, pos, negsuc, pos_part, neg_part, ◌+ℤ◌, ◌-ℤ◌, ltb_ℤ}
use srhc_observability_claud.Rtp.Keys.{Key, contains, add, discard, add_range}

abbrev pub seq_mod : ℕ
seq_mod = 65536

abbrev pub max_dropout : ℕ
max_dropout = 3000

abbrev pub max_misorder : ℕ
max_misorder = 100

-- `highest_ext & ~0xFFFF`
unfoldable pub cycle_of : ℤ → ℤ
cycle_of (pos n) = pos (n - n % 65536)
cycle_of (negsuc n) = negsuc ((n / 65536 + 1) * 65536 - 1)

unfoldable pub extend_rtp_sequence : ℕ → Option ℤ → ℤ
unfolding cycle_of ◌+ℤ◌ ◌-ℤ◌
extend_rtp_sequence sequence none = pos sequence
extend_rtp_sequence sequence (some highest_ext) =
    let candidate = cycle_of highest_ext +ℤ pos sequence in
    if ltb_ℤ (candidate -ℤ highest_ext) (negsuc 32767)
    then candidate +ℤ pos 65536
    else if ltb_ℤ (pos 32768) (candidate -ℤ highest_ext)
    then candidate -ℤ pos 65536
    else candidate

-- The local variables of the loop of `rtp_sequence_stats`.
pub record SequenceState : Type 0 where
  pub segment : ℕ
  pub highest_ext : Option ℤ
  pub bad_seq : Option ℕ
  pub seen : List Key
  pub missing : List Key
  pub valid_unique : ℕ
  pub duplicate_packets : ℕ
  pub out_of_order_packets : ℕ

abbrev pub initial : SequenceState
initial = record {
  segment = 0;
  highest_ext = none;
  bad_seq = none;
  seen = [];
  missing = [];
  valid_unique = 0;
  duplicate_packets = 0;
  out_of_order_packets = 0;
}

-- `sequence == bad_seq`
abbrev pub is_bad : ℕ → Option ℕ → Bool
is_bad sequence none = false
is_bad sequence (some bad) = sequence == bad

abbrev pub leb_ℤ : ℤ → ℤ → Bool
leb_ℤ a b = leb (pos_part a + neg_part b) (pos_part b + neg_part a)

-- `0 < diff <= RTP_MAX_DROPOUT`
abbrev pub is_forward : ℤ → Bool
is_forward diff = ltb_ℤ (pos 0) diff && leb_ℤ diff (pos max_dropout)

-- `-RTP_MAX_MISORDER <= diff < 0`
abbrev pub is_misorder : ℤ → Bool
is_misorder diff = leb_ℤ (negsuc (max_misorder - 1)) diff && ltb_ℤ diff (pos 0)

-- The branch of a small forward gap: what lies between is missing, and the packet is seen.
unfoldable pub on_forward : SequenceState → ℤ → ℤ → ℤ → SequenceState
on_forward s highest candidate diff =
    let key : Key = record { segment = s.segment; ext = candidate } in
    record s {
      missing = discard key (add_range s.segment (highest +ℤ pos 1) (pos_part diff - 1) s.missing);
      seen = add key s.seen;
      valid_unique = s.valid_unique + 1;
      highest_ext = some candidate;
      bad_seq = none;
    }

-- The branch of a small backward movement. `remove` under its membership test is `discard`.
unfoldable pub on_misorder : SequenceState → ℤ → SequenceState
on_misorder s candidate =
    let key : Key = record { segment = s.segment; ext = candidate } in
    record s {
      out_of_order_packets = s.out_of_order_packets + 1;
      seen = add key s.seen;
      missing = if contains key s.missing then discard key s.missing else s.missing;
      valid_unique = s.valid_unique + 1;
      bad_seq = none;
    }

-- The branch of a confirmed source restart.
unfoldable pub on_restart : SequenceState → ℕ → SequenceState
on_restart s sequence = record s {
  segment = s.segment + 1;
  highest_ext = some (pos sequence);
  seen = add (record { segment = s.segment + 1; ext = pos sequence }) s.seen;
  valid_unique = s.valid_unique + 1;
  bad_seq = none;
}

-- One round of the loop once a packet was seen; `candidate` is its extended number.
unfoldable pub classify : SequenceState → ℕ → ℤ → ℤ → SequenceState
classify s sequence highest candidate =
    if contains (record { segment = s.segment; ext = candidate }) s.seen
    then record s { duplicate_packets = s.duplicate_packets + 1 }
    else if is_forward (candidate -ℤ highest)
    then on_forward s highest candidate (candidate -ℤ highest)
    else if is_misorder (candidate -ℤ highest)
    then on_misorder s candidate
    else if is_bad sequence s.bad_seq
    then on_restart s sequence
    else record s { bad_seq = some ((sequence + 1) % seq_mod) }

-- The branch of the first packet.
unfoldable pub on_first : SequenceState → ℕ → SequenceState
on_first s sequence = record s {
  highest_ext = some (pos sequence);
  seen = add (record { segment = s.segment; ext = pos sequence }) s.seen;
  valid_unique = s.valid_unique + 1;
  bad_seq = none;
}

unfoldable pub sequence_step_at : Option ℤ → SequenceState → ℕ → SequenceState
sequence_step_at none s sequence = on_first s sequence
sequence_step_at (some highest) s sequence =
    classify s sequence highest (extend_rtp_sequence sequence (some highest))

unfoldable pub sequence_step : SequenceState → ℕ → SequenceState
unfolding sequence_step_at
sequence_step s sequence = sequence_step_at s.highest_ext s sequence

unfoldable pub sequence_loop : SequenceState → List ℕ → SequenceState
sequence_loop s [] = s
sequence_loop s (sequence ∷ headers) = sequence_loop (sequence_step s sequence) headers

pub record SequenceStats : Type 0 where
  pub expected_packets : ℕ
  pub lost_packets : ℕ
  pub duplicate_packets : ℕ
  pub out_of_order_packets : ℕ

unfoldable pub stats_of : SequenceState → SequenceStats
stats_of s = record {
  expected_packets = s.valid_unique + length s.missing;
  lost_packets = length s.missing;
  duplicate_packets = s.duplicate_packets;
  out_of_order_packets = s.out_of_order_packets;
}

-- The whole function, over the sequence numbers of the headers.
unfoldable pub rtp_sequence_stats : List ℕ → SequenceStats
unfolding stats_of sequence_loop
rtp_sequence_stats headers = stats_of (sequence_loop initial headers)
