-- ===== src/Rtp/Pcap/Records.antt =====
-- The loop of `iter_pcap_udp_packets` over the records, and records as bytes.
use srhc_observability_claud.Prelude.{
  ◌≡◌, refl, ap, ◌∙◌, ℕ, zero, suc, ◌+◌, ◌*◌, ◌-◌, ◌/◌, ◌%◌, ◌<◌, ◌≤◌, Bool, true, false, List, [],
  ◌∷◌, ◌++◌, drop, length, length-append, length-drop, ltb, if◌then◌else◌, arith, Bool-cases, inl,
  inr,
}
use srhc_observability_claud.Rtp.Frame.{Bytes, u16, u32, u16_little, UdpPacket}
use srhc_observability_claud.Rtp.Frame.Encode.{
  take_prefix, drop_prefix, drop_add, put32, put32_value,
}
use srhc_observability_claud.Rtp.Capture.{
  add_record-ends, invalid_record, truncated_record, Endian, big, little, word, Packets, error,
  packets, parse_frame, add_packet, add_record, out_of_fuel,
}
use srhc_observability_claud.Rtp.Pcap.{Format, read_records}

-- The tests of one round with at least 16 bytes.
round_ends :
    (b c : Bool) (later : Packets)
    → ¬ (later ≡ error out_of_fuel)
    → ¬ (
        (if b then error truncated_record else if c then error invalid_record else later)
        ≡ error out_of_fuel)
round_ends true c later h = λ e. cc
round_ends false true later h = λ e. cc
round_ends false false later h = h

pub read_records-ends :
    (fuel : ℕ) (f : Format) (bytes : Bytes)
    → length bytes < fuel
    → ¬ (read_records fuel f bytes ≡ error out_of_fuel)
unfolding read_records
read_records-ends zero f bytes h = absurd (omega arith)
read_records-ends (suc fuel) f bytes h = elim (Bool-cases (ltb (length bytes) 16)) [
  | inl e ↦ simp e (λ d. cc)
  | inr e ↦
      let n = word f.endian bytes 8 in
      let shorter : length (drop (16 + n) bytes) < fuel =
        ground (arith, length-drop (16 + n) bytes) in
      simp e (
        round_ends _ _ _
          (add_record-ends _ _ (read_records-ends fuel f (drop (16 + n) bytes) shorter)))
]

-- The bytes of a word.
abbrev pub put_word : Endian → ℕ → Bytes → Bytes
put_word big n rest = put32 n rest
put_word little n rest = n % 256 ∷ n / 256 % 256 ∷ n / 65536 % 256 ∷ n / 16777216 ∷ rest

pub little_value :
    (n : ℕ) → n % 256 + n / 256 % 256 * 256 + (n / 65536 % 256 + n / 16777216 * 256) * 65536 ≡ n
little_value n = omega arith

pub record Record : Type 0 where
  pub ts_sec : ℕ
  pub ts_frac : ℕ
  pub orig_len : ℕ
  pub frame : Bytes

abbrev pub put_record : Endian → Record → Bytes → Bytes
put_record e r rest =
    put_word e r.ts_sec
      (put_word e r.ts_frac (put_word e (length r.frame) (put_word e r.orig_len (r.frame ++ rest))))

abbrev Reads : Endian → Record → Bytes → Bytes → Type 0
Reads e r rest bytes =
    (word e bytes 0 ≡ r.ts_sec)
    × (word e bytes 4 ≡ r.ts_frac)
    × (word e bytes 8 ≡ length r.frame)
    × (word e bytes 12 ≡ r.orig_len)
    × (drop 16 bytes ≡ r.frame ++ rest)
    × (length bytes ≡ 16 + length (r.frame ++ rest))

put_record-Reads : (e : Endian) (r : Record) (rest : Bytes) → Reads e r rest (put_record e r rest)
unfolding word u32 u16 u16_little
put_record-Reads big r rest = (
  put32_value r.ts_sec,
  put32_value r.ts_frac,
  put32_value (length r.frame),
  put32_value r.orig_len,
  refl,
  omega arith,
)
put_record-Reads little r rest = (
  little_value r.ts_sec,
  little_value r.ts_frac,
  little_value (length r.frame),
  little_value r.orig_len,
  refl,
  omega arith,
)

abbrev pub put_records : Endian → List Record → Bytes → Bytes
put_records e [] trailer = trailer
put_records e (r ∷ rest) trailer = put_record e r (put_records e rest trailer)

-- What the frames of the records hold.
abbrev pub parsed : Format → List Record → List UdpPacket
parsed f [] = []
parsed f (r ∷ rest) =
    add_packet
      (parse_frame f.ethernet r.frame
        (record { ts_sec = r.ts_sec; ts_frac = r.ts_frac; time_scale = f.time_scale }) r.orig_len)
      (parsed f rest)

abbrev pub FitSnaplen : ℕ → List Record → Type 0
FitSnaplen snaplen [] = Unit {0}
FitSnaplen snaplen (r ∷ rest) = (length r.frame ≤ snaplen) × FitSnaplen snaplen rest

-- One round of the loop at a record that fits.
read_record :
    (fuel : ℕ) (f : Format) (r : Record) (rest bytes : Bytes)
    → Reads f.endian r rest bytes
    → length r.frame ≤ f.snaplen
    → read_records (suc fuel) f bytes
      ≡ add_record
          (parse_frame f.ethernet r.frame
            (record { ts_sec = r.ts_sec; ts_frac = r.ts_frac; time_scale = f.time_scale })
            r.orig_len)
          (read_records fuel f rest)
unfolding read_records
read_record fuel f r rest bytes (w0, w4, w8, w12, d, l) s =
    let long : ltb (length bytes) 16 ≡ false = ground arith in
    let whole : ltb (length bytes - 16) (length r.frame) ≡ false =
      ground (arith, length-append r.frame rest) in
    let fits : ltb f.snaplen (length r.frame) ≡ false = ground arith in
    simp (
      w0,
      w4,
      w8,
      w12,
      long,
      whole,
      fits,
      drop_add 16 (length r.frame) bytes,
      d,
      take_prefix r.frame rest,
      drop_prefix r.frame rest,
    )

pub read_records-reads :
    (fuel : ℕ) (f : Format) (rs : List Record) (trailer : Bytes)
    → length rs < fuel
    → length trailer < 16
    → FitSnaplen f.snaplen rs
    → read_records fuel f (put_records f.endian rs trailer) ≡ packets (parsed f rs) (length rs)
unfolding read_records
read_records-reads zero f rs trailer h t s = absurd (omega arith)
read_records-reads (suc fuel) f [] trailer h t s =
    let e : ltb (length trailer) 16 ≡ true = ground arith in simp e
read_records-reads (suc fuel) f (r ∷ rest) trailer h t (s, ss) =
    let after = put_records f.endian rest trailer in
    read_record fuel f r after (put_record f.endian r after) (put_record-Reads f.endian r after) s
    ∙ ap (add_record _) (read_records-reads fuel f rest trailer (omega arith) t ss)
    ∙ unfold add_record in refl
