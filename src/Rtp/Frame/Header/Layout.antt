-- ===== src/Rtp/Frame/Header/Layout.antt =====
-- RTP headers as bytes, with CSRC words, an extension and padding, and where their parts lie.
use srhc_observability_claud.Prelude.{
  refl, ltb, ◌&&◌, ◌∙◌, le→ltb, suc, [], Option, none, ap, ◌≡◌, ℕ, ◌+◌, ◌-◌, ◌*◌, ◌/◌, ◌%◌, ◌<◌,
  ◌≤◌, some, ◌∷◌, ◌++◌, arith, length, length-append, false,
}
use srhc_observability_claud.Rtp.Frame.{u32, u16, Bytes, byte, bit, RtpHeader, rtp_fields}
use srhc_observability_claud.Rtp.Frame.Encode.{put32_value, put16_value, put16, put32}

-- Bytes behind others, and the last byte of all.
pub get_or-append : (xs ys : Bytes) (i : ℕ) → byte (xs ++ ys) (length xs + i) ≡ byte ys i
get_or-append [] ys i = let e : 0 + i ≡ i = omega arith in ap (byte ys) e
get_or-append (x ∷ xs) ys i =
    let e : suc (length xs) + i ≡ suc (length xs + i) = omega arith in
    ap (byte (x ∷ xs ++ ys)) e ∙ get_or-append xs ys i

pub byte_behind : (xs ys : Bytes) (n i : ℕ) → n ≡ length xs → byte (xs ++ ys) (n + i) ≡ byte ys i
byte_behind xs ys n i e = ap (λ m. byte (xs ++ ys) (m + i)) e ∙ get_or-append xs ys i

last_byte : (xs : Bytes) (v : ℕ) → byte (xs ++ v ∷ []) (length (xs ++ v ∷ []) - 1) ≡ v
last_byte xs v =
    let e : length (xs ++ v ∷ []) - 1 ≡ length xs + 0 = omega (arith, length-append xs (v ∷ [])) in
    ap (byte (xs ++ v ∷ [])) e ∙ get_or-append xs (v ∷ []) 0

-- A header extension: its profile, its length in words, and its words.
pub record Extension : Type 0 where
  pub profile : ℕ
  pub words : ℕ
  pub content : Bytes

abbrev pub extension_bytes : Option Extension → Bytes
extension_bytes none = []
extension_bytes (some x) = put16 x.profile (put16 x.words x.content)

abbrev pub FitsWords : Option Extension → Type 0
FitsWords none = Unit
FitsWords (some x) = length x.content ≡ 4 * x.words

-- Padding, of whatever bytes before the last one, which is the number of bytes of the padding.
abbrev pub padding_bytes : Option Bytes → Bytes
padding_bytes none = []
padding_bytes (some fill) = fill ++ suc (length fill) ∷ []

abbrev pub flag {ℓ} : {A : Type ℓ} → Option A → ℕ
flag none = 0
flag (some a) = 1

abbrev pub first_byte : ℕ → ℕ → ℕ → ℕ
first_byte padded extended csrc_count = 128 + padded * 32 + extended * 16 + csrc_count

abbrev pub fixed : RtpHeader → ℕ → Bytes
fixed h start =
    start
    ∷ (h.marker * 128 + h.payload_type)
    ∷ put16 h.sequence (put32 h.timestamp (put32 h.ssrc []))

-- A packet: the fixed header, a list of CSRC words, perhaps an extension, a body, and perhaps
-- padding.
abbrev pub rtp_packet : RtpHeader → ℕ → Bytes → Option Extension → Bytes → Option Bytes → Bytes
rtp_packet h csrc_count csrc extension body padding =
    fixed h (first_byte (flag padding) (flag extension) csrc_count)
    ++ (csrc ++ (extension_bytes extension ++ (body ++ padding_bytes padding)))

pub record IsFirst (padded extended csrc_count start : ℕ) : Type 0 where
  pub count : start % 16 ≡ csrc_count
  pub version : start / 64 ≡ 2
  pub extension_bit : start / 16 % 2 ≡ extended
  pub padding_bit : start / 32 % 2 ≡ padded

pub first_byte-IsFirst :
    (padded extended csrc_count : ℕ)
    → padded ≤ 1
    → extended ≤ 1
    → csrc_count < 16
    → IsFirst padded extended csrc_count (first_byte padded extended csrc_count)
first_byte-IsFirst padded extended csrc_count p x c = record {
  count = omega arith;
  version = omega arith;
  extension_bit = omega arith;
  padding_bit = omega arith;
}

pub flag_le {ℓ} : {A : Type ℓ} (o : Option A) → flag o ≤ 1
flag_le none = omega arith
flag_le (some a) = omega arith

-- The packet behind the fixed header and the CSRC list.
abbrev pub behind : Option Extension → Bytes → Option Bytes → Bytes
behind extension body padding = extension_bytes extension ++ (body ++ padding_bytes padding)

last_of :
    (xs ys : Bytes)
    → 0 < length ys
    → byte (xs ++ ys) (length (xs ++ ys) - 1) ≡ byte ys (length ys - 1)
last_of xs ys h =
    let e : length (xs ++ ys) - 1 ≡ length xs + (length ys - 1) =
      omega (arith, h, length-append xs ys) in
    ap (byte (xs ++ ys)) e ∙ get_or-append xs ys (length ys - 1)

pub length-rtp_packet :
    (h : RtpHeader) (n : ℕ) (csrc : Bytes) (extension : Option Extension) (body : Bytes)
    (padding : Option Bytes)
    → length (rtp_packet h n csrc extension body padding)
      ≡ 12
        + length csrc
        + length (extension_bytes extension)
        + length body
        + length (padding_bytes padding)
length-rtp_packet h n csrc extension body padding = omega (
  arith,
  length-append csrc (behind extension body padding),
  length-append (extension_bytes extension) (body ++ padding_bytes padding),
  length-append body (padding_bytes padding),
)

-- The last byte of a packet with padding.
rtp_packet_last :
    (h : RtpHeader) (n : ℕ) (csrc : Bytes) (extension : Option Extension) (body fill : Bytes)
    → let packet = rtp_packet h n csrc extension body (some fill) in
      byte packet (length packet - 1) ≡ suc (length fill)
rtp_packet_last h n csrc extension body fill =
    let v = suc (length fill) ∷ [] in
    let start = first_byte 1 (flag extension) n in
    let a = length-append fill v in
    let b = length-append body (fill ++ v) in
    let c = length-append (extension_bytes extension) (body ++ (fill ++ v)) in
    let d = length-append csrc (extension_bytes extension ++ (body ++ (fill ++ v))) in
    last_of (fixed h start) (csrc ++ (extension_bytes extension ++ (body ++ (fill ++ v))))
      (omega (arith, a, b, c, d))
    ∙ last_of csrc (extension_bytes extension ++ (body ++ (fill ++ v))) (omega (arith, a, b, c))
    ∙ last_of (extension_bytes extension) (body ++ (fill ++ v)) (omega (arith, a, b))
    ∙ last_of body (fill ++ v) (omega (arith, a))
    ∙ last_byte fill (suc (length fill))

-- The padding does not reach into a header that ends before the body.
pub padding_accepted :
    (h : RtpHeader) (n header_len : ℕ) (csrc : Bytes) (extension : Option Extension) (body : Bytes)
    (padding : Option Bytes)
    → n < 16
    → header_len ≡ 12 + length csrc + length (extension_bytes extension)
    → let packet = rtp_packet h n csrc extension body padding in
      (bit (byte packet 0) 32 && ltb (length packet - header_len) (byte packet (length packet - 1)))
      ≡ false
padding_accepted h n header_len csrc extension body none c e =
    let f = first_byte-IsFirst 0 (flag extension) n (omega arith) (flag_le extension) c in
    ground (arith, f.padding_bit)
padding_accepted h n header_len csrc extension body (some fill) c e =
    let packet = rtp_packet h n csrc extension body (some fill) in
    let fits : ltb (length packet - header_len) (byte packet (length packet - 1)) ≡ false =
      le→ltb _ _ (
        omega (
          arith,
          e,
          length-rtp_packet h n csrc extension body (some fill),
          length-append fill (suc (length fill) ∷ []),
          rtp_packet_last h n csrc extension body fill,
        )) in
    ground (arith, fits)

pub rtp_fields_read :
    (h : RtpHeader) (start header_len : ℕ) (rest : Bytes)
    → h.payload_type < 128
    → let packet = fixed h start ++ rest in
      (bit start 32 && ltb (length packet - header_len) (byte packet (length packet - 1))) ≡ false
      → rtp_fields packet header_len ≡ some (record h { header_len = header_len })
unfolding rtp_fields u16 u32
rtp_fields_read h start header_len rest p ok =
    let low : (h.marker * 128 + h.payload_type) % 128 ≡ h.payload_type = omega arith in
    let high : (h.marker * 128 + h.payload_type) / 128 ≡ h.marker = omega arith in
    simp (ok, low, high, put16_value h.sequence, put32_value h.timestamp, put32_value h.ssrc) refl
