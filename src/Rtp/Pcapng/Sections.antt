-- ===== src/Rtp/Pcapng/Sections.antt =====
-- Whole pcapng files: sections, interfaces, packets and blocks of other types, as bytes, and the
-- packets that they stand for.
use srhc_observability_claud.Prelude.{
  ℕ, ◌≢◌, ◌+◌, ◌*◌, ◌-◌, ◌^◌, ◌<◌, not, ◌&&◌, Option, none, some, List, [], ◌∷◌, ◌++◌, length,
  get_elem?, replicate, ◌==◌, if◌then◌else◌,
}
use srhc_observability_claud.Rtp.Frame.{Bytes, Arrival, UdpPacket}
use srhc_observability_claud.Rtp.Capture.{
  Endian, big, little, unsupported_linktype, Packets, error, packets, parse_frame, add_record,
}
use srhc_observability_claud.Rtp.Pcap.Records.{put_word}
use srhc_observability_claud.Rtp.Pcap.Files.{put_half}
use srhc_observability_claud.Rtp.Pcapng.{Interface, padded_length, ts_resolution}
use srhc_observability_claud.Rtp.Pcapng.Encode.{put_block}

pub record Description : Type 0 where
  pub linktype : ℕ
  pub reserved : ℕ
  pub snaplen : ℕ
  pub tsresol : Option ℕ

pub record Capture : Type 0 where
  pub interface_id : ℕ
  pub ts_high : ℕ
  pub ts_low : ℕ
  pub packet_len : ℕ
  pub frame : Bytes

pub data Block : Type 0 where
  section : Endian → Block
  interface : Description → Block
  packet : Capture → Block
  other : (block_type : ℕ) → Bytes → Block

-- The byte-order magic, the version 1.0 and a section length that is not given.
abbrev pub section_body : Endian → Bytes
section_body big = 0x1a ∷ 0x2b ∷ 0x3c ∷ 0x4d ∷ 0 ∷ 1 ∷ 0 ∷ 0 ∷ replicate 8 255
section_body little = 0x4d ∷ 0x3c ∷ 0x2b ∷ 0x1a ∷ 1 ∷ 0 ∷ 0 ∷ 0 ∷ replicate 8 255

-- An option `if_tsresol` of one byte, padded.
abbrev pub put_tsresol : Endian → Option ℕ → Bytes
put_tsresol e none = []
put_tsresol e (some r) = put_half e 9 (put_half e 1 (r ∷ 0 ∷ 0 ∷ 0 ∷ []))

abbrev pub interface_body : Endian → Description → Bytes
interface_body e d =
    put_half e d.linktype (put_half e d.reserved (put_word e d.snaplen (put_tsresol e d.tsresol)))

abbrev pub packet_body : Endian → Capture → Bytes
packet_body e c = put_word e c.interface_id (
    put_word e c.ts_high (
      put_word e c.ts_low (
        put_word e (length c.frame) (
          put_word e c.packet_len
            (c.frame ++ replicate (padded_length (length c.frame) - length c.frame) 0)))))

abbrev pub put_blocks : Endian → List Block → Bytes → Bytes
put_blocks e [] trailer = trailer
put_blocks e (section next ∷ blocks) trailer =
    put_block next 0x0A0D0D0A (section_body next) (put_blocks next blocks trailer)
put_blocks e (interface d ∷ blocks) trailer =
    put_block e 1 (interface_body e d) (put_blocks e blocks trailer)
put_blocks e (packet c ∷ blocks) trailer =
    put_block e 6 (packet_body e c) (put_blocks e blocks trailer)
put_blocks e (other t body ∷ blocks) trailer = put_block e t body (put_blocks e blocks trailer)

-- The interface of a description: a microsecond is the default of the resolution.
abbrev pub interface_of : Description → Interface
interface_of d = record {
  linktype = d.linktype;
  resolution = elim d.tsresol [ none ↦ 1000000 | some r ↦ ts_resolution (r ∷ []) ];
}

-- What the frame of a packet holds.
abbrev pub frame_of : Interface → Capture → Option UdpPacket
frame_of i c =
    let time : Arrival = record {
      ts_sec = 0;
      ts_frac = c.ts_high * 2 ^ 32 + c.ts_low;
      time_scale = i.resolution;
    } in
    parse_frame (i.linktype == 1) c.frame time c.packet_len

-- A packet, given its interface and what the blocks after it give.
abbrev pub read_packet : Option Interface → Capture → Packets → Packets
read_packet none c later = error unsupported_linktype
read_packet (some i) c later =
    if not (i.linktype == 1) && not (i.linktype == 127)
    then error unsupported_linktype
    else add_record (frame_of i c) later

-- The packets of the blocks, given the interfaces of the section so far. A section starts with none.
abbrev pub meaning : List Interface → List Block → Packets
meaning interfaces [] = packets [] 0
meaning interfaces (section next ∷ blocks) = meaning [] blocks
meaning interfaces (interface d ∷ blocks) = meaning (interfaces ++ interface_of d ∷ []) blocks
meaning interfaces (packet c ∷ blocks) =
    read_packet (get_elem? interfaces c.interface_id) c (meaning interfaces blocks)
meaning interfaces (other t body ∷ blocks) = meaning interfaces blocks

-- The other blocks have types that the reader skips.
abbrev pub OtherTypes : List Block → Type 0
OtherTypes [] = Unit
OtherTypes (other t body ∷ blocks) = (t < 256) × (t ≢ 1) × (t ≢ 6) × OtherTypes blocks
OtherTypes (_ ∷ blocks) = OtherTypes blocks
