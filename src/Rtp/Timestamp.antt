-- ===== src/Rtp/Timestamp.antt =====
-- `rtp_timestamp_delta`: the difference of two RTP timestamps.
use srhc_observability_claud.Prelude.{◌≡◌, ◌⊎◌, ℕ, ◌+◌, ◌<◌, ◌≤◌, arith, if◌then◌else◌}
use srhc_observability_claud.Prelude.Int.{ℤ, pos, ◌+ℤ◌, ◌-ℤ◌, ltb_ℤ, pos_part, neg_part}

abbrev pub rtp_ts_mod : ℕ
rtp_ts_mod = 4294967296

abbrev pub rtp_ts_half_mod : ℕ
rtp_ts_half_mod = 2147483648

unfoldable pub wrap : ℤ → ℤ
wrap delta =
    if ltb_ℤ delta (pos 0 -ℤ pos rtp_ts_half_mod)
    then delta +ℤ pos rtp_ts_mod
    else if ltb_ℤ (pos rtp_ts_half_mod) delta
    then delta -ℤ pos rtp_ts_mod
    else delta

unfoldable pub rtp_timestamp_delta : ℕ → ℕ → ℤ
unfolding wrap
rtp_timestamp_delta current previous = wrap (pos current -ℤ pos previous)

-- For timestamps of 32 bits the difference is at most half the modulus away from 0, and it leads
-- from the previous timestamp to the current one, up to one wrap in either direction.
rtp_timestamp_delta_short :
    (current previous : ℕ)
    → current < rtp_ts_mod
    → previous < rtp_ts_mod
    → (pos_part (rtp_timestamp_delta current previous) ≤ rtp_ts_half_mod)
      × (neg_part (rtp_timestamp_delta current previous) ≤ rtp_ts_half_mod)
      × ((previous + pos_part (rtp_timestamp_delta current previous)
            ≡ current + neg_part (rtp_timestamp_delta current previous))
          ⊎ ((previous + pos_part (rtp_timestamp_delta current previous)
                ≡ current + neg_part (rtp_timestamp_delta current previous) + rtp_ts_mod)
              ⊎ (previous + pos_part (rtp_timestamp_delta current previous) + rtp_ts_mod
                  ≡ current + neg_part (rtp_timestamp_delta current previous))))
unfolding rtp_timestamp_delta ◌+ℤ◌ ◌-ℤ◌
rtp_timestamp_delta_short current previous hc hp = ground arith
