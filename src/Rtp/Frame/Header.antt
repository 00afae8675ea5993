-- ===== src/Rtp/Frame/Header.antt =====
-- `parse_rtp_header`: what it accepts, and what it reads from an encoded header.
pub mod Layout
use srhc_observability_claud.Rtp.Frame.Header.Layout.{
  Extension, extension_bytes, FitsWords, padding_bytes, rtp_packet, IsFirst, get_or-append,
  byte_behind, flag, first_byte, fixed, first_byte-IsFirst, flag_le, behind, length-rtp_packet,
  padding_accepted, rtp_fields_read,
}
use srhc_observability_claud.Prelude.{
  sym, refl, ◌==◌, true, ltb, ◌&&◌, ◌∙◌, le→ltb, suc, [], Option, none, ap, ◌⊎◌, ◌≡◌, ℕ, ◌+◌, ◌-◌,
  ◌*◌, ◌/◌, ◌%◌, ◌<◌, ◌≤◌, some, ◌∷◌, ◌++◌, arith, length, length-append, false,
}
use srhc_observability_claud.Rtp.Frame.{
  u32, u16, Bytes, byte, bit, RtpHeader, rtp_fields, rtp_extension, parse_rtp_header,
}
use srhc_observability_claud.Rtp.Frame.Encode.{put32_value, put16_value, put16, put32}

abbrev pub PaddingFits : Bytes → ℕ → Type 0
PaddingFits payload header_len =
    (bit (byte payload 0) 32 ≡ false)
    ⊎ (header_len + byte payload (length payload - 1) ≤ length payload)

rtp_fields_sound :
    (payload : Bytes) (header_len : ℕ) (h : RtpHeader)
    → header_len ≤ length payload
    → rtp_fields payload header_len ≡ some h
    → (h.header_len ≡ header_len) × PaddingFits payload header_len
unfolding rtp_fields
rtp_fields_sound payload header_len h l e = ground arith

rtp_extension_sound :
    (payload : Bytes) (header_len : ℕ) (h : RtpHeader)
    → header_len ≤ length payload
    → rtp_extension payload header_len ≡ some h
    → (header_len ≤ h.header_len)
      × (h.header_len ≤ length payload)
      × PaddingFits payload h.header_len
unfolding rtp_extension
rtp_extension_sound payload header_len h l e = ground arith

-- If parse_rtp_header returns a header, then the version is 2, the header with its extension is
-- inside the payload and at least as long as the fixed part with the CSRC list, and padding, if
-- there is any, does not reach into the header.
pub parse_rtp_header_bounds :
    (payload : Bytes) (h : RtpHeader)
    → parse_rtp_header payload ≡ some h
    → (byte payload 0 / 64 ≡ 2)
      × (12 + 4 * (byte payload 0 % 16) ≤ h.header_len)
      × (h.header_len ≤ length payload)
      × PaddingFits payload h.header_len
unfolding parse_rtp_header
parse_rtp_header_bounds payload h e =
    ground (arith, rtp_extension_sound payload (12 + 4 * (byte payload 0 % 16)) h)

byte_after :
    (h : RtpHeader) (n : ℕ) (csrc : Bytes) (extension : Option Extension) (body : Bytes)
    (padding : Option Bytes) (i : ℕ)
    → length csrc ≡ 4 * n
    → byte (rtp_packet h n csrc extension body padding) (12 + 4 * n + i)
      ≡ byte (behind extension body padding) i
byte_after h n csrc extension body padding i l =
    let start = fixed h (first_byte (flag padding) (flag extension) n) in
    let rest = csrc ++ behind extension body padding in
    let e : 12 + 4 * n + i ≡ length start + (4 * n + i) = omega arith in
    ap (byte (start ++ rest)) e
    ∙ get_or-append start rest (4 * n + i)
    ∙ byte_behind csrc (behind extension body padding) (4 * n) i (omega (arith, l))

extension_words :
    (h : RtpHeader) (n : ℕ) (csrc : Bytes) (x : Extension) (body : Bytes) (padding : Option Bytes)
    → length csrc ≡ 4 * n
    → u16 (rtp_packet h n csrc (some x) body padding) (12 + 4 * n + 2) ≡ x.words
unfolding u16
extension_words h n csrc x body padding l =
    let packet = rtp_packet h n csrc (some x) body padding in
    let high = byte_after h n csrc (some x) body padding 2 l in
    let low = byte_after h n csrc (some x) body padding 3 l in
    let e : 12 + 4 * n + 2 + 1 ≡ 12 + 4 * n + 3 = omega arith in
    omega (arith, high, ap (byte packet) e ∙ low, put16_value x.words)

rtp_extension_read :
    (h : RtpHeader) (n : ℕ) (csrc : Bytes) (extension : Option Extension) (body : Bytes)
    (padding : Option Bytes)
    → n < 16
    → length csrc ≡ 4 * n
    → FitsWords extension
    → let packet = rtp_packet h n csrc extension body padding in
      rtp_extension packet (12 + 4 * n)
      ≡ rtp_fields packet (12 + 4 * n + length (extension_bytes extension))
unfolding rtp_extension
rtp_extension_read h n csrc none body padding c l w =
    let f = first_byte-IsFirst (flag padding) 0 n (flag_le padding) (omega arith) c in
    let plain : bit (first_byte (flag padding) 0 n) 16 ≡ false = ground (arith, f.extension_bit) in
    let e : 12 + 4 * n ≡ 12 + 4 * n + 0 = omega arith in
    simp plain (ap (rtp_fields (rtp_packet h n csrc none body padding)) e)
rtp_extension_read h n csrc (some x) body padding c l w =
    let packet = rtp_packet h n csrc (some x) body padding in
    let f = first_byte-IsFirst (flag padding) 1 n (flag_le padding) (omega arith) c in
    let marked : bit (first_byte (flag padding) 1 n) 16 ≡ true = ground (arith, f.extension_bit) in
    let size = length-rtp_packet h n csrc (some x) body padding in
    let words = extension_words h n csrc x body padding l in
    let long : ltb (length packet) (12 + 4 * n + 4) ≡ false =
      le→ltb _ _ (omega (arith, size, l, w)) in
    let whole : ltb (length packet) (12 + 4 * n + 4 + 4 * x.words) ≡ false =
      le→ltb _ _ (omega (arith, size, l, w)) in
    let e : 12 + 4 * n + 4 + 4 * x.words ≡ 12 + 4 * n + length (extension_bytes (some x)) =
      omega (arith, w) in
    simp (marked, words, long, whole) (ap (rtp_fields packet) e)

-- parse_rtp_header reads back every field of an encoded header with up to 15 CSRC words, with or
-- without an extension and padding, before whatever body, and gives the length of the header: 12
-- bytes, the CSRC words, and the extension with its own four bytes.
pub parse_rtp_header_reads :
    (h : RtpHeader) (csrc_count : ℕ) (csrc : Bytes) (extension : Option Extension) (body : Bytes)
    (padding : Option Bytes)
    → h.payload_type < 128
    → csrc_count < 16
    → length csrc ≡ 4 * csrc_count
    → FitsWords extension
    → h.header_len ≡ 12 + 4 * csrc_count + length (extension_bytes extension)
    → parse_rtp_header (rtp_packet h csrc_count csrc extension body padding) ≡ some h
unfolding parse_rtp_header
parse_rtp_header_reads h n csrc extension body padding p c l w e =
    let packet = rtp_packet h n csrc extension body padding in
    let start = first_byte (flag padding) (flag extension) n in
    let f =
      first_byte-IsFirst (flag padding) (flag extension) n (flag_le padding) (flag_le extension)
        c in
    let size = length-rtp_packet h n csrc extension body padding in
    let count = f.count in
    let version : (start / 64 == 2) ≡ true = ground (arith, f.version) in
    let long : ltb (length packet) 12 ≡ false = le→ltb _ _ (omega (arith, size)) in
    let whole : ltb (length packet) (12 + 4 * n) ≡ false = le→ltb _ _ (omega (arith, size, l)) in
    let header_len = 12 + 4 * n + length (extension_bytes extension) in
    let ok = padding_accepted h n header_len csrc extension body padding c (omega (arith, l)) in
    simp (count, version, long, whole)
      (rtp_extension_read h n csrc extension body padding c l w
        ∙ rtp_fields_read h start header_len (csrc ++ behind extension body padding) p ok
        ∙ ap (λ m. some (record h { header_len = m })) (sym e))
