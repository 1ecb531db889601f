-- ===== src/Drivers/Cga.antt =====
-- kern/drivers/cga.c: the text screen. A cell of `crt_buf` has 16 bits, and so has `crt_pos`. The
-- writes to the ports of the cursor are kept in order.
pub mod Scroll
pub mod Cursor
pub mod Registers
use Prim.Native.Nat.{bit_or}
use zonix.Prelude.{
  ltb, leb, ◌==◌, if◌then◌else◌, ℕ, zero, suc, ◌+◌, ◌-◌, ◌*◌, ◌/◌, ◌%◌, ◌^◌, List, [], ◌∷◌, ◌++◌,
}

abbrev pub crt_rows : ℕ
crt_rows = 25

abbrev pub crt_cols : ℕ
crt_cols = 80

abbrev pub crt_erase_char : ℕ
crt_erase_char = 0x0720

pub record Cga : Type 0 where
  pub crt_buf : ℕ → ℕ
  pub crt_pos : ℕ
  pub ports : List (ℕ × ℕ)

abbrev pub write_cell : (ℕ → ℕ) → ℕ → ℕ → ℕ → ℕ
write_cell buf i v j = if j == i then v else buf j

abbrev pub u16 : ℕ → ℕ
u16 n = n % 2 ^ 16

-- `outb(port, value)` writes a byte.
abbrev pub outb : ℕ → ℕ → Cga → Cga
outb port value s = record s { ports = s.ports ++ (port, value % 256) ∷ [] }

unfoldable pub cur_update : Cga → Cga
cur_update s =
    outb 0x3D5 s.crt_pos (outb 0x3D4 0x0F (outb 0x3D5 (s.crt_pos / 256) (outb 0x3D4 0x0E s)))

-- `high` and `low` are what the two registers of the cursor give.
unfoldable pub cga_init : ℕ → ℕ → Cga → Cga
cga_init high low s =
    let s = record (outb 0x3D4 0x0E s) { crt_pos = u16 (high * 256) } in
    record (outb 0x3D4 0x0F s) { crt_pos = bit_or (u16 (high * 256)) low }

-- `crt_buf[i] = source[i]` for `count` cells from `i`, in place.
unfoldable pub copy_rows : ℕ → ℕ → (ℕ → ℕ) → ℕ → ℕ
copy_rows i zero buf = buf
copy_rows i (suc count) buf = copy_rows (i + 1) count (write_cell buf i (buf (crt_cols + i)))

unfoldable pub clear_cells : ℕ → ℕ → (ℕ → ℕ) → ℕ → ℕ
clear_cells i zero buf = buf
clear_cells i (suc count) buf = clear_cells (i + 1) count (write_cell buf i crt_erase_char)

unfoldable pub cga_scrup : Cga → Cga
cga_scrup s = record s {
  crt_buf =
      clear_cells (crt_cols * (crt_rows - 1)) crt_cols
        (copy_rows 0 ((crt_rows - 1) * crt_cols) s.crt_buf);
  crt_pos = u16 (s.crt_pos + 2 ^ 16 - crt_cols);
}

-- `crt_pos -= (crt_pos % CRT_COLS)`.
abbrev pub line_start : Cga → Cga
line_start s = record s { crt_pos = s.crt_pos - s.crt_pos % crt_cols }

unfoldable pub new_line : Cga → Cga
new_line s =
    let t = record s { crt_pos = u16 (s.crt_pos + crt_cols) } in
    line_start (if leb crt_rows (t.crt_pos / crt_cols) then cga_scrup t else t)

unfoldable pub backspace : ℕ → Cga → Cga
backspace c s =
    if ltb 0 s.crt_pos
    then record s {
      crt_pos = s.crt_pos - 1;
      crt_buf = write_cell s.crt_buf (s.crt_pos - 1) (u16 (bit_or (c / 256 * 256) 0x20));
    }
    else s

unfoldable pub put_char : ℕ → Cga → Cga
put_char c s = record s {
  crt_buf = write_cell s.crt_buf s.crt_pos (u16 c);
  crt_pos = u16 (s.crt_pos + 1);
}

-- The `switch`; the case '\n' falls through to '\r'.
unfoldable pub cga_switch : ℕ → Cga → Cga
cga_switch c s =
    if c % 256 == 8
    then backspace c s
    else if c % 256 == 10
    then new_line s
    else if c % 256 == 13
    then line_start s
    else put_char c s

unfoldable pub cga_putc : ℕ → Cga → Cga
unfolding cga_switch
cga_putc c s = cur_update (cga_switch (bit_or c 0x0700) s)
