-- ===== src/Rtp/Frame/Ethernet.antt =====
-- `parse_ethernet_udp_frame` on frames with VLAN tags.
use srhc_observability_claud.Prelude.{
  ◌≡◌, refl, ℕ, some, List, [], ◌∷◌, arith, length, true, false, ltb,
}
use srhc_observability_claud.Rtp.Frame.{
  Bytes, u16, Arrival, parse_ipv4_udp_packet, skip_tags, is_vlan, parse_ethernet_udp_frame,
}
use srhc_observability_claud.Rtp.Frame.Encode.{put16, put16_value}

-- A VLAN tag: its ethertype and its control information.
abbrev pub Tags : Type 0
Tags = List (ℕ × ℕ)

abbrev pub AreVlan : Tags → Type 0
AreVlan [] = Unit {0}
AreVlan ((ethertype, tci) ∷ rest) = (is_vlan ethertype ≡ true) × AreVlan rest

-- The first ethertype of a frame with these tags, and the bytes after it.
abbrev pub first_type : Tags → ℕ
first_type [] = 0x0800
first_type ((ethertype, tci) ∷ rest) = ethertype

abbrev pub after_type : Tags → Bytes → Bytes
after_type [] packet = packet
after_type ((ethertype, tci) ∷ rest) packet =
    put16 tci (put16 (first_type rest) (after_type rest packet))

skip_tags_none : (packet : Bytes) → skip_tags 0x0800 packet ≡ some packet
unfolding skip_tags
skip_tags_none [] = refl
skip_tags_none (a ∷ []) = refl
skip_tags_none (a ∷ b ∷ []) = refl
skip_tags_none (a ∷ b ∷ c ∷ []) = refl
skip_tags_none (a ∷ b ∷ c ∷ d ∷ rest) = refl

skip_tags_all :
    (tags : Tags) (packet : Bytes)
    → AreVlan tags
    → skip_tags (first_type tags) (after_type tags packet) ≡ some packet
unfolding skip_tags
skip_tags_all [] packet h = skip_tags_none packet
skip_tags_all ((ethertype, tci) ∷ rest) packet (v, h) =
    simp (put16_value (first_type rest), v) (skip_tags_all rest packet h)

pub record Mac : Type 0 where
  pub a : ℕ
  pub b : ℕ
  pub c : ℕ
  pub d : ℕ
  pub e : ℕ
  pub f : ℕ

abbrev pub put_mac : Mac → Bytes → Bytes
put_mac m rest = m.a ∷ m.b ∷ m.c ∷ m.d ∷ m.e ∷ m.f ∷ rest

-- parse_ethernet_udp_frame passes over any number of VLAN tags of the three known types and gives
-- what parse_ipv4_udp_packet gives for the packet after them.
parse_ethernet_skips_tags :
    (destination source : Mac) (tags : Tags) (packet : Bytes) (t : Arrival) (n : ℕ)
    → AreVlan tags
    → parse_ethernet_udp_frame
        (put_mac destination (put_mac source (put16 (first_type tags) (after_type tags packet))))
        t
        n
      ≡ parse_ipv4_udp_packet packet t n
unfolding parse_ethernet_udp_frame u16
parse_ethernet_skips_tags destination source tags packet t n h =
    let frame =
      put_mac destination (put_mac source (put16 (first_type tags) (after_type tags packet))) in
    let long : ltb (length frame) 14 ≡ false = ground arith in
    simp (long, put16_value (first_type tags), skip_tags_all tags packet h)
