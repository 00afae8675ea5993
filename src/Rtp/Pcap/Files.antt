-- ===== src/Rtp/Pcap/Files.antt =====
-- `iter_pcap_udp_packets` on whole files.
use srhc_observability_claud.Rtp.Pcap.Records.{
  Record, put_word, put_records, parsed, FitSnaplen, read_records-reads, read_records-ends,
  little_value,
}
use srhc_observability_claud.Prelude.{
  ◌+◌, ◌∙◌, ◌⊎◌, inl, inr, ◌⊎◌, ◌≡◌, refl, ap, ◌∙◌, ℕ, suc, ◌/◌, ◌%◌, ◌<◌, ◌≤◌, Bool, true, false,
  not, ◌&&◌, Option, none, some, List, [], ◌∷◌, take, drop, length, length-append, length-drop, ltb,
  ◌==◌, if◌then◌else◌, arith, inl, inr,
}
use srhc_observability_claud.Rtp.Frame.{Bytes, u16, u32, u16_little}
use srhc_observability_claud.Rtp.Frame.Encode.{put16, put32_value}
use srhc_observability_claud.Rtp.Capture.{
  Packets, too_short, unsupported_version, unsupported_linktype, Endian, big, little, half, word,
  PcapError, error, packets, out_of_fuel,
}
use srhc_observability_claud.Prelude.Text.{text_eq}
use srhc_observability_claud.Rtp.Pcapng.{pcapng_magic}
use srhc_observability_claud.Rtp.Pcapng.Blocks.{iter_pcapng_udp_packets_ends}
use srhc_observability_claud.Rtp.Pcap.{
  read_classic, read_file, Format, read_records, read_header, iter_pcap_udp_packets, pcap_magic,
}

abbrev pub put_half : Endian → ℕ → Bytes → Bytes
put_half big n rest = put16 n rest
put_half little n rest = n % 256 ∷ n / 256 ∷ rest

-- The resolution of the times of the records.
pub data Resolution : Type 0 where
  microseconds nanoseconds : Resolution

abbrev pub put_magic : Endian → Resolution → Bytes → Bytes
put_magic big microseconds rest = 0xa1 ∷ 0xb2 ∷ 0xc3 ∷ 0xd4 ∷ rest
put_magic big nanoseconds rest = 0xa1 ∷ 0xb2 ∷ 0x3c ∷ 0x4d ∷ rest
put_magic little microseconds rest = 0xd4 ∷ 0xc3 ∷ 0xb2 ∷ 0xa1 ∷ rest
put_magic little nanoseconds rest = 0x4d ∷ 0x3c ∷ 0xb2 ∷ 0xa1 ∷ rest

-- A pcap file with its byte order, its resolution, a snap length, a link type and records, before a
-- trailer.
abbrev pub pcap_file : Endian → Resolution → ℕ → ℕ → List Record → Bytes → Bytes
pcap_file e u snaplen network records trailer = put_magic e u (
    put_half e 2 (
      put_half e 4 (
        put_word e 0 (
          put_word e 0 (put_word e snaplen (put_word e network (put_records e records trailer)))))))

abbrev pub ticks_of : Resolution → ℕ
ticks_of microseconds = 1000000
ticks_of nanoseconds = 1000000000

abbrev pub format_of : Endian → Resolution → ℕ → ℕ → Format
format_of e u snaplen network = record {
  endian = e;
  time_scale = ticks_of u;
  snaplen = snaplen;
  ethernet = network == 1;
}

length-records :
    (e : Endian) (rs : List Record) (trailer : Bytes)
    → length rs ≤ length (put_records e rs trailer)
length-records e [] trailer = omega arith
length-records big (r ∷ rs) trailer =
    omega (arith, length-records big rs trailer, length-append r.frame (put_records big rs trailer))
length-records little (r ∷ rs) trailer =
    omega (
      arith,
      length-records little rs trailer,
      length-append r.frame (put_records little rs trailer),
    )

known_linktype :
    (network : ℕ)
    → (network ≡ 1) ⊎ (network ≡ 127)
    → (not (network == 1) && not (network == 127)) ≡ false
known_linktype network n = ground arith

read_header-reads :
    (e : Endian) (u : Resolution) (snaplen network : ℕ) (records : List Record) (trailer : Bytes)
    → (network ≡ 1) ⊎ (network ≡ 127)
    → let file = pcap_file e u snaplen network records trailer in
      read_header file (pcap_magic (take 4 file)) ≡ inr (format_of e u snaplen network)
unfolding read_header pcap_magic half word u16 u32 u16_little
read_header-reads big microseconds snaplen network records trailer n =
    simp (put32_value snaplen, put32_value network, known_linktype network n)
read_header-reads big nanoseconds snaplen network records trailer n =
    simp (put32_value snaplen, put32_value network, known_linktype network n)
read_header-reads little microseconds snaplen network records trailer n =
    simp (little_value snaplen, little_value network, known_linktype network n)
read_header-reads little nanoseconds snaplen network records trailer n =
    simp (little_value snaplen, little_value network, known_linktype network n)

length-pcap_file :
    (e : Endian) (u : Resolution) (snaplen network : ℕ) (records : List Record) (trailer : Bytes)
    → length (pcap_file e u snaplen network records trailer)
      ≡ 24 + length (put_records e records trailer)
length-pcap_file big microseconds snaplen network records trailer = omega arith
length-pcap_file big nanoseconds snaplen network records trailer = omega arith
length-pcap_file little microseconds snaplen network records trailer = omega arith
length-pcap_file little nanoseconds snaplen network records trailer = omega arith

is_not_pcapng :
    (e : Endian) (u : Resolution) (snaplen network : ℕ) (records : List Record) (trailer : Bytes)
    → text_eq (take 4 (pcap_file e u snaplen network records trailer)) pcapng_magic ≡ false
is_not_pcapng big microseconds snaplen network records trailer = refl
is_not_pcapng big nanoseconds snaplen network records trailer = refl
is_not_pcapng little microseconds snaplen network records trailer = refl
is_not_pcapng little nanoseconds snaplen network records trailer = refl

-- A file in the classic format goes to the classic reader.
is_classic :
    (e : Endian) (u : Resolution) (snaplen network : ℕ) (records : List Record) (trailer : Bytes)
    → let file = pcap_file e u snaplen network records trailer in
      iter_pcap_udp_packets file ≡ read_classic file
unfolding iter_pcap_udp_packets
is_classic e u snaplen network records trailer =
    let long : ltb (length (pcap_file e u snaplen network records trailer)) 24 ≡ false =
      ground (arith, length-pcap_file e u snaplen network records trailer) in
    simp (long, is_not_pcapng e u snaplen network records trailer)

after_header :
    (e : Endian) (u : Resolution) (snaplen network : ℕ) (records : List Record) (trailer : Bytes)
    → drop 24 (pcap_file e u snaplen network records trailer) ≡ put_records e records trailer
after_header big microseconds snaplen network records trailer = refl
after_header big nanoseconds snaplen network records trailer = refl
after_header little microseconds snaplen network records trailer = refl
after_header little nanoseconds snaplen network records trailer = refl

enough_fuel :
    (e : Endian) (u : Resolution) (snaplen network : ℕ) (records : List Record) (trailer : Bytes)
    → length records < suc (length (pcap_file e u snaplen network records trailer))
enough_fuel e u snaplen network records trailer =
    omega (
      arith,
      length-records e records trailer,
      length-pcap_file e u snaplen network records trailer,
    )

-- iter_pcap_udp_packets reads a file of either byte order, with times in microseconds or in
-- nanoseconds, of link type 1 or 127, with any records within the snap length and fewer than 16
-- bytes after them: it gives the number of records and, in their order, what the frames hold that
-- are UDP packets.
pub iter_pcap_udp_packets_reads :
    (e : Endian) (u : Resolution) (snaplen network : ℕ) (records : List Record) (trailer : Bytes)
    → (network ≡ 1) ⊎ (network ≡ 127)
    → length trailer < 16
    → FitSnaplen snaplen records
    → iter_pcap_udp_packets (pcap_file e u snaplen network records trailer)
      ≡ packets (parsed (format_of e u snaplen network) records) (length records)
iter_pcap_udp_packets_reads e u snaplen network records trailer n t s =
    let file = pcap_file e u snaplen network records trailer in
    is_classic e u snaplen network records trailer
    ∙ unfold read_classic in
      ap (read_file file) (read_header-reads e u snaplen network records trailer n)
      ∙ ap (read_records (suc (length file)) (format_of e u snaplen network))
          (after_header e u snaplen network records trailer)
      ∙ read_records-reads (suc (length file)) (format_of e u snaplen network) records trailer
          (enough_fuel e u snaplen network records trailer) t s

error_injective : (e d : PcapError) → error e ≡ error d → e ≡ d
error_injective e d h = cc

header_fails :
    (a b : Bool) (f : Format)
    → ¬ (
        ◌≡◌ {A = PcapError ⊎ Format}
          (if a then inl unsupported_version else if b then inl unsupported_linktype else inr f)
          (inl out_of_fuel))
header_fails true b f = λ e. cc
header_fails false true f = λ e. cc
header_fails false false f = λ e. cc

read_header_fails :
    (bytes : Bytes) (magic : Option (Endian × ℕ)) → ¬ (read_header bytes magic ≡ inl out_of_fuel)
unfolding read_header
read_header_fails bytes none = λ e. cc
read_header_fails bytes (some (e, scale)) = header_fails _ _ _

read_file-ends :
    (bytes : Bytes) (start : PcapError ⊎ Format)
    → ¬ (start ≡ inl out_of_fuel)
    → ¬ (read_file bytes start ≡ error out_of_fuel)
unfolding read_file
read_file-ends bytes (inl e) h = λ k. h (ap inl (error_injective e out_of_fuel k))
read_file-ends bytes (inr f) h =
    read_records-ends (suc (length bytes)) f (drop 24 bytes) (omega (arith, length-drop 24 bytes))

read_classic-ends : (bytes : Bytes) → ¬ (read_classic bytes ≡ error out_of_fuel)
unfolding read_classic
read_classic-ends bytes =
    read_file-ends bytes (read_header bytes (pcap_magic (take 4 bytes)))
      (read_header_fails bytes (pcap_magic (take 4 bytes)))

start_ends :
    (a b : Bool) (ng classic : Packets)
    → ¬ (ng ≡ error out_of_fuel)
    → ¬ (classic ≡ error out_of_fuel)
    → ¬ ((if a then error too_short else if b then ng else classic) ≡ error out_of_fuel)
start_ends true b ng classic h k = λ e. cc
start_ends false true ng classic h k = h
start_ends false false ng classic h k = k

-- On any bytes, of a classic file, of a pcapng file or of neither, the loops of
-- iter_pcap_udp_packets and iter_pcapng_udp_packets over the records and over the blocks end before
-- their fuel, which is one more than the number of bytes, is used up.
pub iter_pcap_udp_packets_ends :
    (bytes : Bytes) → ¬ (iter_pcap_udp_packets bytes ≡ error out_of_fuel)
unfolding iter_pcap_udp_packets
iter_pcap_udp_packets_ends bytes =
    start_ends _ _ _ _ (iter_pcapng_udp_packets_ends bytes) (read_classic-ends bytes)
