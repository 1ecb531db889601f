-- ===== src/Arch/Segments.antt =====
-- include/arch/x86/asm/seg.h: the segment descriptors of the boot code, by the bytes that the macros emit.
use zonix.Prelude.{get_or, ℕ, ◌+◌, ◌*◌, ◌/◌, ◌%◌, ◌^◌, ◌<◌, ◌≡◌, List, [], ◌∷◌, arith}

-- The two bytes of a `.word`.
abbrev pub word_bytes : ℕ → List ℕ → List ℕ
word_bytes w rest = w % 256 ∷ w / 256 % 256 ∷ rest

unfoldable pub gen_seg_null : List ℕ
gen_seg_null = word_bytes 0 (word_bytes 0 (0 ∷ 0 ∷ 0 ∷ 0 ∷ []))

-- The low four bits of 0x90 and of 0xC0 are clear, so `|` is a sum below 16.
unfoldable pub gen_seg_desc : ℕ → ℕ → ℕ → List ℕ
gen_seg_desc type base lim = word_bytes (lim / 2 ^ 12 % 2 ^ 16) (
    word_bytes (base % 2 ^ 16)
      (base / 2 ^ 16 % 256 ∷ (0x90 + type) ∷ (0xC0 + lim / 2 ^ 28 % 16) ∷ base / 2 ^ 24 % 256 ∷ []))

-- What the processor reads in the eight bytes of a segment descriptor; the limit is the offset of the last
-- byte, in units of a page if the granularity bit is set.
pub record Segment : Type 0 where
  pub base : ℕ
  pub limit : ℕ
  pub type : ℕ
  pub application : ℕ
  pub privilege : ℕ
  pub present : ℕ
  pub wide : ℕ

abbrev pub scaled : ℕ → ℕ → ℕ
scaled granular limit = limit * (1 + 4095 * granular) + 4095 * granular

abbrev pub read_segment : ℕ → ℕ → ℕ → ℕ → ℕ → ℕ → ℕ → ℕ → Segment
read_segment b0 b1 b2 b3 b4 b5 b6 b7 = record {
  base = b2 + 2 ^ 8 * b3 + 2 ^ 16 * b4 + 2 ^ 24 * b7;
  limit = scaled (b6 / 2 ^ 7) (b0 + 2 ^ 8 * b1 + 2 ^ 16 * (b6 % 16));
  type = b5 % 16;
  application = b5 / 2 ^ 4 % 2;
  privilege = b5 / 2 ^ 5 % 4;
  present = b5 / 2 ^ 7;
  wide = b6 / 2 ^ 6 % 2;
}

abbrev pub segment_of : List ℕ → Segment
segment_of bs =
    read_segment (get_or bs 0 0) (get_or bs 1 0) (get_or bs 2 0) (get_or bs 3 0) (get_or bs 4 0)
      (get_or bs 5 0) (get_or bs 6 0) (get_or bs 7 0)

-- From the bytes that `GEN_SEG_DESC` emits for a type of four bits, a base and a limit of 32 bits, the
-- processor reads a present 32-bit application segment of the kernel's privilege with that type and that
-- base; its limit is the last byte of the page that holds the limit asked for.
pub gen_seg_desc-segment :
    (type base lim : ℕ)
    → type < 16
    → base < 2 ^ 32
    → lim < 2 ^ 32
    → segment_of (gen_seg_desc type base lim) ≡ record {
      base = base;
      limit = lim / 4096 * 4096 + 4095;
      type = type;
      application = 1;
      privilege = 0;
      present = 1;
      wide = 1;
    }
unfolding gen_seg_desc
gen_seg_desc-segment type base lim t b l = ground arith
