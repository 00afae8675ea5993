-- ===== src/Ingest/Container.antt =====
-- Capture containers: the magic numbers and `looks_like_pcap`.
use srhc_observability_claud.Prelude.{
  ℕ, Bool, false, ◌||◌, List, [], ◌∷◌, take, length, ltb, if◌then◌else◌,
}
use srhc_observability_claud.Prelude.Text.{text_eq}

-- Bytes are numbers below 256.
abbrev pub Bytes : Type 0
Bytes = List ℕ

-- `PCAP_MAGIC_NUMBERS`
abbrev pub pcap_magic_numbers : List Bytes
pcap_magic_numbers =
    (0xa1 ∷ 0xb2 ∷ 0xc3 ∷ 0xd4 ∷ [])
    ∷ (0xd4 ∷ 0xc3 ∷ 0xb2 ∷ 0xa1 ∷ [])
    ∷ (0xa1 ∷ 0xb2 ∷ 0x3c ∷ 0x4d ∷ [])
    ∷ (0x4d ∷ 0x3c ∷ 0xb2 ∷ 0xa1 ∷ [])
    ∷ []

abbrev pub pcapng_section_header_block : Bytes
pcapng_section_header_block = 0x0a ∷ 0x0d ∷ 0x0d ∷ 0x0a ∷ []

-- `head in PCAP_MAGIC_NUMBERS`
abbrev pub is_in : Bytes → List Bytes → Bool
is_in head [] = false
is_in head (magic ∷ rest) = text_eq head magic || is_in head rest

unfoldable pub is_container : Bytes → Bool
is_container head = is_in head pcap_magic_numbers || text_eq head pcapng_section_header_block

-- `magic_bytes` on bytes
abbrev pub magic_bytes : Bytes → Bytes
magic_bytes source = take 4 source

unfoldable pub looks_like_pcap : Bytes → Bool
unfolding is_container
looks_like_pcap source =
    if ltb (length (magic_bytes source)) 4 then false else is_container (magic_bytes source)
