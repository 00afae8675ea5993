-- ===== src/Rtp/Pcapng/Encode.antt =====
-- A block of a pcapng file as bytes: `read_block` reads back what was written.
use srhc_observability_claud.Prelude.{
  ℕ, zero, suc, ◌≡◌, refl, ap, ◌∙◌, ◌+◌, ◌-◌, true, false, List, [], ◌∷◌, ◌++◌, drop, take, length,
  length-append, ltb, ◌==◌, arith,
}
use srhc_observability_claud.Rtp.Frame.{Bytes, byte, slice, u16, u32, u16_little}
use srhc_observability_claud.Rtp.Frame.Encode.{put32_value, take_prefix, drop_prefix, drop_add}
use srhc_observability_claud.Rtp.Capture.{Endian, big, little, word}
use srhc_observability_claud.Rtp.Pcap.Records.{put_word, little_value}
use srhc_observability_claud.Rtp.Pcapng.{Interface, read_block, block_effect}

-- A byte, and a word, are read at any place.
byte_at : (k i j : ℕ) (b : Bytes) → k + i ≡ j → byte (drop k b) i ≡ byte b j
byte_at zero i j b e = let q : i ≡ j = omega arith in ap (byte b) q
byte_at (suc k) i j [] e = refl
byte_at (suc k) i zero (x ∷ b) e = absurd (omega arith)
byte_at (suc k) i (suc j) (x ∷ b) e = byte_at k i j b (omega arith)

pub word_at : (e : Endian) (k : ℕ) (b : Bytes) → word e b k ≡ word e (drop k b) 0
unfolding word u32 u16 u16_little
word_at big k b = omega (
  arith,
  byte_at k 0 k b (omega arith),
  byte_at k 1 (k + 1) b (omega arith),
  byte_at k 2 (k + 2) b (omega arith),
  byte_at k 3 (k + 2 + 1) b (omega arith),
)
word_at little k b = omega (
  arith,
  byte_at k 0 k b (omega arith),
  byte_at k 1 (k + 1) b (omega arith),
  byte_at k 2 (k + 2) b (omega arith),
  byte_at k 3 (k + 2 + 1) b (omega arith),
)

pub word-put_word : (e : Endian) (n : ℕ) (rest : Bytes) → word e (put_word e n rest) 0 ≡ n
unfolding word u32 u16 u16_little
word-put_word big n rest = put32_value n
word-put_word little n rest = little_value n

pub drop-put_word : (e : Endian) (n : ℕ) (rest : Bytes) → drop 4 (put_word e n rest) ≡ rest
drop-put_word big n rest = refl
drop-put_word little n rest = refl

length-put_word : (e : Endian) (n : ℕ) (rest : Bytes) → length (put_word e n rest) ≡ 4 + length rest
length-put_word big n rest = omega arith
length-put_word little n rest = omega arith

-- A block with a body.
abbrev pub put_block : Endian → ℕ → Bytes → Bytes → Bytes
put_block e block_type body rest =
    let total = 12 + length body in
    put_word e block_type (put_word e total (body ++ put_word e total rest))

drop-head :
    (e : Endian) (t : ℕ) (body rest : Bytes)
    → drop 8 (put_block e t body rest) ≡ body ++ put_word e (12 + length body) rest
drop-head big t body rest = refl
drop-head little t body rest = refl

drop-body :
    (e : Endian) (t : ℕ) (body rest : Bytes)
    → drop (8 + length body) (put_block e t body rest) ≡ put_word e (12 + length body) rest
drop-body e t body rest =
    drop_add 8 (length body) (put_block e t body rest)
    ∙ ap (drop (length body)) (drop-head e t body rest)
    ∙ drop_prefix body (put_word e (12 + length body) rest)

pub drop-put_block :
    (e : Endian) (t : ℕ) (body rest : Bytes)
    → drop (12 + length body) (put_block e t body rest) ≡ rest
drop-put_block e t body rest =
    let split : 12 + length body ≡ 8 + length body + 4 = omega arith in
    ap (λ n. drop n (put_block e t body rest)) split
    ∙ drop_add (8 + length body) 4 (put_block e t body rest)
    ∙ ap (drop 4) (drop-body e t body rest)
    ∙ drop-put_word e (12 + length body) rest

pub length-put_block :
    (e : Endian) (t : ℕ) (body rest : Bytes)
    → length (put_block e t body rest) ≡ 12 + length body + length rest
length-put_block e t body rest = omega (
  arith,
  length-put_word e t (put_word e (12 + length body) (body ++ put_word e (12 + length body) rest)),
  length-put_word e (12 + length body) (body ++ put_word e (12 + length body) rest),
  length-append body (put_word e (12 + length body) rest),
  length-put_word e (12 + length body) rest,
)

body_of :
    (e : Endian) (t : ℕ) (body rest : Bytes)
    → slice (put_block e t body rest) 8 (8 + length body) ≡ body
body_of e t body rest =
    let n : 8 + length body - 8 ≡ length body = omega arith in
    ap (λ k. take k (drop 8 (put_block e t body rest))) n
    ∙ ap (take (length body)) (drop-head e t body rest)
    ∙ take_prefix body (put_word e (12 + length body) rest)

-- The tests of a block that is written so succeed, and its body is what was written.
pub read_block-put_block :
    (e : Endian) (t kind : ℕ) (interfaces : List Interface) (body rest : Bytes)
    → read_block
        (record {
          endian = e;
          block_type = kind;
          total_len = 12 + length body;
          interfaces = interfaces;
        })
        (put_block e t body rest)
      ≡ block_effect e kind interfaces body
unfolding read_block
read_block-put_block e t kind interfaces body rest =
    let bytes = put_block e t body rest in
    let enough : ltb (12 + length body) 12 ≡ false = ground arith in
    let whole : ltb (length bytes) (12 + length body) ≡ false =
      ground (arith, length-put_block e t body rest) in
    let place : 12 + length body - 4 ≡ 8 + length body = omega arith in
    let trailer : word e bytes (8 + length body) ≡ 12 + length body =
      word_at e (8 + length body) bytes
      ∙ ap (λ b. word e b 0) (drop-body e t body rest)
      ∙ word-put_word e (12 + length body) rest in
    let same : ((12 + length body) == (12 + length body)) ≡ true = ground arith in
    simp (enough, whole, place, trailer, same, body_of e t body rest)
