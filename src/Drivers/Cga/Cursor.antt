-- ===== src/Drivers/Cga/Cursor.antt =====
-- Where `cga_putc` of kern/drivers/cga.c leaves the cursor.
use Prim.Native.Nat.{bit_or}
use zonix.Prelude.{
  ltb, ◌==◌, if◌then◌else◌, eq-beq, passes_below, passes_below_lem, ℕ, ◌+◌, ◌-◌, ◌*◌, ◌/◌, ◌%◌, ◌^◌,
  ◌≤◌, ◌<◌, ◌≡◌, refl, ◌∙◌, true, [], ◌∷◌, ◌++◌, append_assoc, arith,
}
use zonix.Drivers.Cga.{
  Cga, u16, cur_update, cga_scrup, new_line, backspace, put_char, cga_putc, cga_switch,
}

cga_scrup-pos : (s : Cga) → (cga_scrup s).crt_pos ≡ u16 (s.crt_pos + 2 ^ 16 - 80)
unfolding cga_scrup
cga_scrup-pos s = refl

new_line-pos :
    (s : Cga)
    → s.crt_pos < 2000
    → (new_line s).crt_pos ≡ (if ltb s.crt_pos 1920 then (s.crt_pos / 80 + 1) * 80 else 1920)
unfolding new_line
new_line-pos s h = ground (arith, cga_scrup-pos (record s { crt_pos = u16 (s.crt_pos + 80) }))

attribute_table : passes_below (λ c. bit_or c 0x0700 == c + 0x0700) 256 ≡ true
unfolding passes_below
attribute_table = refl

-- A byte with the attribute white on black.
with_attribute : (c : ℕ) → c < 256 → bit_or c 0x0700 ≡ c + 0x0700
with_attribute c h = eq-beq _ (c + 0x0700) (passes_below_lem _ 256 c h attribute_table)

cur_update-pos : (s : Cga) → (cur_update s).crt_pos ≡ s.crt_pos
unfolding cur_update
cur_update-pos s = refl

pub cga_putc-pos :
    (c : ℕ) (s : Cga)
    → c < 256
    → s.crt_pos < 2000
    → (cga_putc c s).crt_pos ≡ (
        if c == 8
        then s.crt_pos - 1
        else if c == 10
        then (if ltb s.crt_pos 1920 then (s.crt_pos / 80 + 1) * 80 else 1920)
        else if c == 13
        then s.crt_pos / 80 * 80
        else s.crt_pos + 1)
unfolding cga_putc backspace put_char
cga_putc-pos c s h p =
    let low : (c + 0x0700) % 256 ≡ c = omega arith in
    rw (with_attribute c h, low, cur_update-pos) (ground (arith, new_line-pos s p))

-- A printable byte is written under the cursor with its attribute, and nothing else changes; the
-- screen does not scroll, wherever the cursor is.
pub cga_putc_printable :
    (c : ℕ) (s : Cga)
    → 32 ≤ c
    → c < 256
    → s.crt_pos + 1 < 2 ^ 16
    → ((cga_putc c s).crt_pos ≡ s.crt_pos + 1)
      × ((j : ℕ) → (cga_putc c s).crt_buf j ≡ (if j == s.crt_pos then c + 0x0700 else s.crt_buf j))
unfolding cga_putc put_char cur_update
cga_putc_printable c s l h p =
    let low : (c + 0x0700) % 256 ≡ c = omega arith in
    rw (with_attribute c h, low) (ground arith, λ j. ground arith)

-- So text that runs over the end of the last row without a line feed is not shown: the second of two
-- printable bytes from the last cell of the screen goes to the cell behind it.
pub cga_putc_off_screen :
    (c d : ℕ) (s : Cga)
    → (32 ≤ c) × (c < 256)
    → (32 ≤ d) × (d < 256)
    → s.crt_pos ≡ 1999
    → ((cga_putc d (cga_putc c s)).crt_buf 2000 ≡ d + 0x0700)
      × ((cga_putc d (cga_putc c s)).crt_pos ≡ 2001)
      × ((j : ℕ) → j < 2000 → (cga_putc d (cga_putc c s)).crt_buf j ≡ (cga_putc c s).crt_buf j)
cga_putc_off_screen c d s (lc, hc) (ld, hd) e =
    let (pos, cells) = cga_putc_printable c s lc hc (omega arith) in
    let (pos', cells') = cga_putc_printable d (cga_putc c s) ld hd (omega (arith, pos, e)) in
    let at : (cga_putc c s).crt_pos ≡ 2000 = omega (arith, pos, e) in
    (cells' 2000 ∙ rw at refl, omega arith, λ j h. cells' j ∙ rw at (ground arith))

cga_switch-ports : (c : ℕ) (s : Cga) → (cga_switch c s).ports ≡ s.ports
unfolding cga_switch backspace new_line put_char cga_scrup
cga_switch-ports c s = ground arith

-- The bytes that the last four writes to the ports carry are the cursor.
pub cga_putc-ports :
    (c : ℕ) (s : Cga)
    → (hi lo : ℕ) × ((cga_putc c s).ports
        ≡ s.ports ++ (0x3D4, 0x0E) ∷ (0x3D5, hi) ∷ (0x3D4, 0x0F) ∷ (0x3D5, lo) ∷ [])
      × (hi * 256 + lo ≡ (cga_putc c s).crt_pos % 2 ^ 16)
      × (hi < 256)
      × (lo < 256)
unfolding cga_putc cur_update
cga_putc-ports c s =
    let t = cga_switch (bit_or c 0x0700) s in
    (
      t.crt_pos / 256 % 256,
      t.crt_pos % 256,
      rw (cga_switch-ports (bit_or c 0x0700) s, append_assoc, append_assoc, append_assoc),
      omega arith,
      omega arith,
      omega arith,
    )
