-- ===== src/Media/Timing.antt =====
-- `percentile`, `interarrival_stats`, `packet_rate` and `rtp_jitter_ms`.
use srhc_observability_claud.Prelude.{
  ℕ, suc, ◌+◌, ◌*◌, ◌-◌, ◌/◌, min, not, Option, none, some, List, [], ◌∷◌, length, get_elem?,
  if◌then◌else◌,
}
use srhc_observability_claud.Prelude.Int.{ℤ, pos}
use srhc_observability_claud.Prelude.Ratio.{
  Ratio, ratio, add_ratio, sub_ratio, scale_ratio, div_ratio, abs_ratio, ltb_ratio,
}
use srhc_observability_claud.Prelude.Sort.{sorted}
use srhc_observability_claud.Rtp.Frame.{Arrival, UdpPacket, RtpHeader}

-- The seconds of an arrival.
unfoldable pub seconds_of : Arrival → Ratio
unfolding ratio
seconds_of a = ratio (a.ts_sec * a.time_scale + a.ts_frac) a.time_scale

-- `math.ceil(q * n) - 1` for a `q` in hundredths, within the list of `n` elements.
unfoldable pub rank_of : ℕ → ℕ → ℕ
rank_of hundredths n = min (n - 1) ((hundredths * n + 99) / 100 - 1)

unfoldable pub percentile : List Ratio → ℕ → Option Ratio
unfolding sorted ltb_ratio rank_of
percentile values hundredths =
    get_elem? (sorted ltb_ratio values) (rank_of hundredths (length values))

-- The gaps in milliseconds between neighbours that are in order.
unfoldable pub gaps_of : List Ratio → List Ratio
unfolding sub_ratio scale_ratio ltb_ratio
gaps_of [] = []
gaps_of (previous ∷ []) = []
gaps_of (previous ∷ current ∷ arrivals) =
    let rest = gaps_of (current ∷ arrivals) in
    if not (ltb_ratio current previous)
    then scale_ratio 1000 (sub_ratio current previous) ∷ rest
    else rest

-- `max(values)`
unfoldable pub greatest : Ratio → List Ratio → Ratio
unfolding ltb_ratio
greatest best [] = best
greatest best (value ∷ values) = greatest (if ltb_ratio best value then value else best) values

unfoldable pub greatest_of : List Ratio → Option Ratio
unfolding greatest
greatest_of [] = none
greatest_of (value ∷ values) = some (greatest value values)

unfoldable pub interarrival_stats : List Ratio → Option Ratio × Option Ratio × Option Ratio
unfolding gaps_of percentile greatest_of
interarrival_stats arrivals =
    let gaps = gaps_of arrivals in (percentile gaps 50, percentile gaps 95, greatest_of gaps)

-- A number over a fraction that is positive.
unfoldable pub rate_over : ℕ → ℤ → ℕ → Option Ratio
unfolding ratio
rate_over packet_count (pos (suc n)) den = some (ratio (packet_count * den) (suc n))
rate_over packet_count _ den = none

unfoldable pub packet_rate : ℕ → Ratio → Ratio → Option Ratio
unfolding rate_over sub_ratio
packet_rate packet_count first_seen last_seen =
    let duration = sub_ratio last_seen first_seen in
    rate_over packet_count duration.num duration.den

-- `packet.arrival_time - header.timestamp / clock_rate`
unfoldable pub transit_of : ℕ → UdpPacket × RtpHeader → Ratio
unfolding sub_ratio seconds_of ratio
transit_of clock_rate item =
    sub_ratio (seconds_of item.0.arrival_time) (ratio item.1.timestamp clock_rate)

-- The jitter after one more transit time.
unfoldable pub jitter_step : Ratio → Ratio → Option Ratio → Ratio → Ratio
unfolding sub_ratio abs_ratio ltb_ratio add_ratio div_ratio
jitter_step max_delta jitter none transit = jitter
jitter_step max_delta jitter (some previous) transit =
    let delta = abs_ratio (sub_ratio transit previous) in
    if not (ltb_ratio max_delta delta)
    then add_ratio jitter (div_ratio (sub_ratio delta jitter) 16)
    else jitter

unfoldable pub jitter_loop : ℕ → Ratio → Ratio → Option Ratio → List (UdpPacket × RtpHeader) → Ratio
unfolding transit_of jitter_step
jitter_loop clock_rate max_delta jitter previous [] = jitter
jitter_loop clock_rate max_delta jitter previous (item ∷ items) =
    let transit = transit_of clock_rate item in
    jitter_loop clock_rate max_delta (jitter_step max_delta jitter previous transit) (some transit)
      items

unfoldable pub rtp_jitter_ms : List (UdpPacket × RtpHeader) → ℕ → Ratio → Ratio
unfolding scale_ratio jitter_loop ratio
rtp_jitter_ms packets clock_rate max_delta =
    scale_ratio 1000 (jitter_loop clock_rate max_delta (ratio 0 1) none packets)
