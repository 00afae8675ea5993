-- ===== src/Rtp/Sequence/Accounting/Step.antt =====
-- One round of the loop of rtp_sequence_stats keeps the account of the keys.
use srhc_observability_claud.Prelude.{
  ℕ, ◌+◌, ◌-◌, ◌<◌, ◌≡◌, refl, true, false, Option, none, some, List, [], length, arith, Bool-cases,
  inl, inr, ◌∙◌, ap,
}
use srhc_observability_claud.Prelude.Int.{ℤ, pos, pos_part, ◌+ℤ◌, ◌-ℤ◌, ◌≤ℤ◌}
use srhc_observability_claud.Rtp.Keys.{
  Key, contains, add, IsNodup, Disjoint, Below, ◌<ℤ◌, Below-fresh_segment, Below-mono,
  Below-next_segment,
}
use srhc_observability_claud.Rtp.Keys.Laws.{
  length-add_fresh, add-IsNodup, discard-IsNodup, discard-Below, add-Below, Disjoint-claim,
  Disjoint-add, add_range-IsNodup, add_range-Disjoint, add_range-Below,
}
use srhc_observability_claud.Rtp.Sequence.{
  SequenceState, initial, is_forward, is_misorder, is_bad, on_first, on_forward, on_misorder,
  on_restart, classify, extend_rtp_sequence, sequence_step, sequence_step_at,
}

-- Before the first packet there is nothing; after it nothing lies beyond the highest number.
abbrev pub Bounded : ℕ → Option ℤ → List Key → List Key → Type 0
Bounded segment none seen missing = (seen ≡ []) × (missing ≡ [])
Bounded segment (some high) seen missing = Below segment high seen × Below segment high missing

pub record IsAccounted (s : SequenceState) : Type 0 where
  pub seen_once : IsNodup s.seen
  pub missing_once : IsNodup s.missing
  pub apart : Disjoint s.missing s.seen
  pub counted : length s.seen ≡ s.valid_unique
  pub bounded : Bounded s.segment s.highest_ext s.seen s.missing

pub initial-IsAccounted : IsAccounted initial
initial-IsAccounted = record {
  seen_once = tt;
  missing_once = tt;
  apart = tt;
  counted = refl;
  bounded = (refl, refl);
}

abbrev key_at : SequenceState → ℤ → Key
key_at s x = record { segment = s.segment; ext = x }

on_first-IsAccounted :
    (s : SequenceState) (sequence : ℕ)
    → s.seen ≡ []
    → s.missing ≡ []
    → s.valid_unique ≡ 0
    → IsAccounted (on_first s sequence)
unfolding on_first add
on_first-IsAccounted s sequence e m z = record {
  seen_once = rw e (refl, tt);
  missing_once = rw m tt;
  apart = rw m tt;
  counted = rw e (omega arith);
  bounded = rw (e, m) ((omega arith, λ _. omega arith, tt), tt);
}

module _ (s : SequenceState) (high : ℤ) (h : IsAccounted s)
    (at_high : s.highest_ext ≡ some high) where
  below : Below s.segment high s.seen × Below s.segment high s.missing
  below = rw at_high at h.bounded

  on_forward-IsAccounted :
      (candidate : ℤ)
      → contains (key_at s candidate) s.seen ≡ false
      → is_forward (candidate -ℤ high) ≡ true
      → IsAccounted (on_forward s high candidate (candidate -ℤ high))
  unfolding on_forward ◌-ℤ◌ ◌+ℤ◌
  on_forward-IsAccounted candidate fresh forward =
      let rises : high <ℤ candidate = ground arith in
      let wide : high ≤ℤ candidate = omega arith in
      let first : high <ℤ high +ℤ pos 1 = ground arith in
      let fits : high +ℤ pos 1 +ℤ pos (pos_part (candidate -ℤ high) - 1) ≤ℤ candidate +ℤ pos 1 =
        ground arith in
      let gap = pos_part (candidate -ℤ high) - 1 in
      let high_missing = Below-mono s.segment high candidate s.missing below.1 wide in
      record {
        seen_once = add-IsNodup (key_at s candidate) s.seen h.seen_once;
        missing_once =
            discard-IsNodup (key_at s candidate) _
              (add_range-IsNodup s.segment (high +ℤ pos 1) gap s.missing h.missing_once);
        apart = Disjoint-claim (key_at s candidate) _ s.seen (
            add_range-Disjoint s.segment high (high +ℤ pos 1) gap s.missing s.seen below.0 first
              h.apart);
        counted =
            length-add_fresh (key_at s candidate) s.seen fresh ∙ ap (λ (n : ℕ). n + 1) h.counted;
        bounded = (
          add-Below (key_at s candidate) s.segment candidate s.seen (omega arith) (λ _. omega arith)
              (Below-mono s.segment high candidate s.seen below.0 wide),
          discard-Below (key_at s candidate) s.segment candidate _
              (add_range-Below s.segment (high +ℤ pos 1) candidate gap s.missing fits high_missing),
        );
      }

  on_misorder-IsAccounted :
      (candidate : ℤ)
      → contains (key_at s candidate) s.seen ≡ false
      → is_misorder (candidate -ℤ high) ≡ true
      → IsAccounted (on_misorder s candidate)
  unfolding on_misorder ◌-ℤ◌
  on_misorder-IsAccounted candidate fresh back =
      let falls : candidate ≤ℤ high = ground arith in
      let seen_below =
        add-Below (key_at s candidate) s.segment high s.seen (omega arith) (λ _. falls) below.0 in
      let counted' =
        length-add_fresh (key_at s candidate) s.seen fresh ∙ ap (λ (n : ℕ). n + 1) h.counted in
      elim (Bool-cases (contains (key_at s candidate) s.missing)) [
        | inl held ↦ record {
          seen_once = add-IsNodup (key_at s candidate) s.seen h.seen_once;
          missing_once = rw held (discard-IsNodup (key_at s candidate) s.missing h.missing_once);
          apart = rw held (Disjoint-claim (key_at s candidate) s.missing s.seen h.apart);
          counted = counted';
          bounded =
              rw (at_high, held)
                (seen_below, discard-Below (key_at s candidate) s.segment high s.missing below.1);
        }
        | inr free ↦ record {
          seen_once = add-IsNodup (key_at s candidate) s.seen h.seen_once;
          missing_once = rw free h.missing_once;
          apart = rw free (Disjoint-add (key_at s candidate) s.missing s.seen free h.apart);
          counted = counted';
          bounded = rw (at_high, free) (seen_below, below.1);
        }
      ]

  on_restart-IsAccounted : (sequence : ℕ) → IsAccounted (on_restart s sequence)
  unfolding on_restart
  on_restart-IsAccounted sequence =
      let later : s.segment < s.segment + 1 = omega arith in
      let key : Key = record { segment = s.segment + 1; ext = pos sequence } in
      let new_seen : contains key s.seen ≡ false =
        Below-fresh_segment s.segment (s.segment + 1) high (pos sequence) s.seen below.0 later in
      let new_missing : contains key s.missing ≡ false =
        Below-fresh_segment s.segment (s.segment + 1) high (pos sequence) s.missing below.1 later in
      record {
        seen_once = add-IsNodup key s.seen h.seen_once;
        missing_once = h.missing_once;
        apart = Disjoint-add key s.missing s.seen new_missing h.apart;
        counted = length-add_fresh key s.seen new_seen ∙ ap (λ (n : ℕ). n + 1) h.counted;
        bounded = (
          add-Below key (s.segment + 1) (pos sequence) s.seen (omega arith) (λ _. omega arith)
              (Below-next_segment s.segment (s.segment + 1) high (pos sequence) s.seen below.0
                later),
          Below-next_segment s.segment (s.segment + 1) high (pos sequence) s.missing below.1 later,
        );
      }

  classify-IsAccounted :
      (sequence : ℕ) (candidate : ℤ) → IsAccounted (classify s sequence high candidate)
  unfolding classify
  classify-IsAccounted sequence candidate =
      elim (Bool-cases (contains (key_at s candidate) s.seen)) [
        | inl known ↦ rw known (record {
          seen_once = h.seen_once;
          missing_once = h.missing_once;
          apart = h.apart;
          counted = h.counted;
          bounded = h.bounded;
        })
        | inr fresh ↦ elim (Bool-cases (is_forward (candidate -ℤ high))) [
          | inl forward ↦ rw (fresh, forward) (on_forward-IsAccounted candidate fresh forward)
          | inr far ↦ elim (Bool-cases (is_misorder (candidate -ℤ high))) [
            | inl back ↦ rw (fresh, far, back) (on_misorder-IsAccounted candidate fresh back)
            | inr wild ↦ elim (Bool-cases (is_bad sequence s.bad_seq)) [
              | inl confirmed ↦ rw (fresh, far, wild, confirmed) (on_restart-IsAccounted sequence)
              | inr once ↦
                  rw (fresh, far, wild, once)
                    (record {
                      seen_once = h.seen_once;
                      missing_once = h.missing_once;
                      apart = h.apart;
                      counted = h.counted;
                      bounded = h.bounded;
                    })
            ]
          ]
        ]
      ]

sequence_step_at-IsAccounted :
    (highest : Option ℤ) (s : SequenceState) (sequence : ℕ)
    → s.highest_ext ≡ highest
    → (s.highest_ext ≡ none → s.valid_unique ≡ 0)
    → Bounded s.segment highest s.seen s.missing
    → IsAccounted s
    → IsAccounted (sequence_step_at highest s sequence)
unfolding sequence_step_at
sequence_step_at-IsAccounted none s sequence e start b h =
    on_first-IsAccounted s sequence b.0 b.1 (start e)
sequence_step_at-IsAccounted (some high) s sequence e start b h =
    classify-IsAccounted s high h e sequence (extend_rtp_sequence sequence (some high))

pub sequence_step-IsAccounted :
    (s : SequenceState) (sequence : ℕ)
    → (s.highest_ext ≡ none → s.valid_unique ≡ 0)
    → IsAccounted s
    → IsAccounted (sequence_step s sequence)
unfolding sequence_step
sequence_step-IsAccounted s sequence start h =
    sequence_step_at-IsAccounted s.highest_ext s sequence refl start h.bounded h
