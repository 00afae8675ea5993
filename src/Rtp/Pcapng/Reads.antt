-- ===== src/Rtp/Pcapng/Reads.antt =====
-- What the loop of `iter_pcapng_udp_packets` does at each kind of block.
use srhc_observability_claud.Prelude.{
  ℕ, suc, ◌≡◌, refl, ap, ◌∙◌, ◌+◌, ◌-◌, ◌/◌, ◌%◌, ◌<◌, Bool-cases, inl, Bool, true, false, not,
  ◌&&◌, Option, none, some, inr, List, [], ◌∷◌, ◌++◌, drop, take, length, length-append, get_elem?,
  replicate, ltb, ◌==◌, arith,
}
use srhc_observability_claud.Prelude.Text.{text_eq}
use srhc_observability_claud.Rtp.Frame.{Bytes, u16, u32, u16_little}
use srhc_observability_claud.Rtp.Frame.Encode.{put16_value, put32_value, take_prefix}
use srhc_observability_claud.Rtp.Capture.{Endian, big, little, half, word, Packets}
use srhc_observability_claud.Rtp.Pcap.Records.{put_word, little_value}
use srhc_observability_claud.Rtp.Pcap.Files.{put_half}
use srhc_observability_claud.Rtp.Pcapng.{
  pcapng_magic, Interface, describe, padded_length, ts_resolution, options_loop, pcapng_options,
  resolution_of, byte_order, section_start, other_start, block_start, BlockStart, interface_block,
  packet_of, packet_block, block_effect, after_block, after_start, read_blocks,
}
use srhc_observability_claud.Rtp.Pcapng.Encode.{
  put_block, length-put_block, drop-put_block, read_block-put_block, word_at, drop-put_word,
  word-put_word,
}
use srhc_observability_claud.Rtp.Pcapng.Sections.{
  Description, Capture, section_body, put_tsresol, interface_body, packet_body, interface_of,
  read_packet,
}

half-put_half : (e : Endian) (n : ℕ) (rest : Bytes) → half e (put_half e n rest) 0 ≡ n
unfolding half u16 u16_little
half-put_half big n rest = put16_value n
half-put_half little n rest = omega arith

-- The options of an interface.
resolution-put_tsresol :
    (e : Endian) (r : Option ℕ)
    → resolution_of 1000000 (pcapng_options e (put_tsresol e r))
      ≡ elim r [ none ↦ 1000000 | some r ↦ ts_resolution (r ∷ []) ]
unfolding resolution_of pcapng_options options_loop half u16 u16_little padded_length
resolution-put_tsresol e none = refl
resolution-put_tsresol big (some r) = refl
resolution-put_tsresol little (some r) = refl

after_description :
    (e : Endian) (d : Description)
    → (drop 8 (interface_body e d) ≡ put_tsresol e d.tsresol)
      × (length (interface_body e d) ≡ 8 + length (put_tsresol e d.tsresol))
after_description big d = (refl, omega arith)
after_description little d = (refl, omega arith)

pub interface_block-reads :
    (e : Endian) (d : Description)
    → interface_block e (interface_body e d) ≡ describe (interface_of d)
unfolding interface_block
interface_block-reads e d =
    let (tail, size) = after_description e d in
    let long : ltb (length (interface_body e d)) 8 ≡ false = ground arith in
    simp (long, half-put_half e d.linktype, tail, resolution-put_tsresol e d.tsresol)

abbrev padding : Capture → Bytes
padding c = replicate (padded_length (length c.frame) - length c.frame) 0

abbrev Fields : Endian → Capture → Bytes → Type 0
Fields e c body =
    (word e body 0 ≡ c.interface_id)
    × (word e body 4 ≡ c.ts_high)
    × (word e body 8 ≡ c.ts_low)
    × (word e body 12 ≡ length c.frame)
    × (word e body 16 ≡ c.packet_len)
    × (drop 20 body ≡ c.frame ++ padding c)
    × (length body ≡ 20 + length (c.frame ++ padding c))

packet_body-Fields : (e : Endian) (c : Capture) → Fields e c (packet_body e c)
unfolding word u32 u16 u16_little
packet_body-Fields big c = (
  put32_value c.interface_id,
  put32_value c.ts_high,
  put32_value c.ts_low,
  put32_value (length c.frame),
  put32_value c.packet_len,
  refl,
  omega arith,
)
packet_body-Fields little c = (
  little_value c.interface_id,
  little_value c.ts_high,
  little_value c.ts_low,
  little_value (length c.frame),
  little_value c.packet_len,
  refl,
  omega arith,
)

pub packet_block-reads :
    (e : Endian) (interfaces : List Interface) (c : Capture)
    → packet_block e interfaces (packet_body e c)
      ≡ packet_of e (packet_body e c) (get_elem? interfaces c.interface_id)
unfolding packet_block
packet_block-reads e interfaces c =
    let (w0, w4, w8, w12, w16, tail, size) = packet_body-Fields e c in
    let long : ltb (length (packet_body e c)) 20 ≡ false = ground arith in
    let whole : ltb (length (packet_body e c) - 20) (length c.frame) ≡ false =
      ground (arith, length-append c.frame (padding c)) in
    simp (long, w12, whole, w0)

-- The rest of the loop, given what it gives for the interfaces so far.
pub packet_of-reads :
    (e : Endian) (interfaces : List Interface) (c : Capture) (o : Option Interface)
    (later : List Interface → Packets)
    → after_block interfaces (packet_of e (packet_body e c) o) later
      ≡ read_packet o c (later interfaces)
unfolding packet_of after_block
packet_of-reads e interfaces c none later = refl
packet_of-reads e interfaces c (some i) later =
    let (w0, w4, w8, w12, w16, tail, size) = packet_body-Fields e c in
    elim (Bool-cases (not (i.linktype == 1) && not (i.linktype == 127))) [
      | inl k ↦ simp k
      | inr k ↦ simp (k, w4, w8, w12, w16, tail, take_prefix c.frame (padding c))
    ]

and_no : (b : Bool) → (b && false) ≡ false
and_no true = refl
and_no false = refl

-- The start of a block other than that of a section.
other_magic :
    (e : Endian) (t : ℕ) (rest : Bytes)
    → t < 256
    → text_eq (take 4 (put_word e t rest)) pcapng_magic ≡ false
other_magic big t rest h = let z : t / 65536 / 256 ≡ 0 = omega arith in simp z
other_magic little t rest h = let z : t / 256 % 256 ≡ 0 = omega arith in rw z (and_no _)

abbrev start_of : Endian → ℕ → ℕ → List Interface → BlockStart
start_of e kind total interfaces = record {
  endian = e;
  block_type = kind;
  total_len = total;
  interfaces = interfaces;
}

pub block_start-section :
    (o : Option Endian) (interfaces : List Interface) (e : Endian) (rest : Bytes)
    → block_start o interfaces (put_block e 0x0A0D0D0A (section_body e) rest)
      ≡ inr (start_of e 0x0A0D0D0A (12 + length (section_body e)) [])
unfolding block_start section_start byte_order word u32 u16 u16_little
block_start-section o interfaces big rest =
    let long : ltb (length (put_block big 0x0A0D0D0A (section_body big) rest)) 28 ≡ false =
      ground arith in
    simp long
block_start-section o interfaces little rest =
    let long : ltb (length (put_block little 0x0A0D0D0A (section_body little) rest)) 28 ≡ false =
      ground arith in
    simp long

pub block_start-other :
    (e : Endian) (t : ℕ) (interfaces : List Interface) (body rest : Bytes)
    → t < 256
    → block_start (some e) interfaces (put_block e t body rest)
      ≡ inr (start_of e t (12 + length body) interfaces)
unfolding block_start other_start
block_start-other e t interfaces body rest h =
    let tail = put_word e (12 + length body) (body ++ put_word e (12 + length body) rest) in
    let size : word e (put_block e t body rest) 4 ≡ 12 + length body =
      word_at e 4 (put_block e t body rest)
      ∙ ap (λ b. word e b 0) (drop-put_word e t tail)
      ∙ word-put_word e (12 + length body) (body ++ put_word e (12 + length body) rest) in
    simp (other_magic e t tail h, word-put_word e t tail, size)

-- One round of the loop.
pub read_round :
    (fuel : ℕ) (o : Option Endian) (before interfaces : List Interface) (e : Endian) (t : ℕ)
    (body rest : Bytes)
    → block_start o before (put_block e t body rest)
      ≡ inr (start_of e t (12 + length body) interfaces)
    → read_blocks (suc fuel) o before (put_block e t body rest)
      ≡ after_block interfaces
          (block_effect e t interfaces body)
          (λ now. read_blocks fuel (some e) now rest)
unfolding read_blocks after_start
read_round fuel o before interfaces e t body rest h =
    let long : ltb (length (put_block e t body rest)) 12 ≡ false =
      ground (arith, length-put_block e t body rest) in
    simp (long, h, read_block-put_block e t t interfaces body rest, drop-put_block e t body rest)
