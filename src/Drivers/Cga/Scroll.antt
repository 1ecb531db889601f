-- ===== src/Drivers/Cga/Scroll.antt =====
-- The two loops of `cga_scrup` in kern/drivers/cga.c.
use zonix.Prelude.{ltb, leb, if◌then◌else◌, ℕ, zero, suc, ◌+◌, ◌*◌, ◌≡◌, ◌&&◌, arith}
use zonix.Drivers.Cga.{Cga, crt_cols, crt_erase_char, write_cell, copy_rows, clear_cells, cga_scrup}

-- The source stays ahead of the cells that the loop has overwritten.
copy_rows-at :
    (i count : ℕ) (buf : ℕ → ℕ) (j : ℕ)
    → copy_rows i count buf j ≡ (if leb i j && ltb j (i + count) then buf (crt_cols + j) else buf j)
unfolding copy_rows
copy_rows-at i zero buf j = ground arith
copy_rows-at i (suc count) buf j =
    ground (arith, copy_rows-at (i + 1) count (write_cell buf i (buf (crt_cols + i))) j)

clear_cells-at :
    (i count : ℕ) (buf : ℕ → ℕ) (j : ℕ)
    → clear_cells i count buf j ≡ (if leb i j && ltb j (i + count) then crt_erase_char else buf j)
unfolding clear_cells
clear_cells-at i zero buf j = ground arith
clear_cells-at i (suc count) buf j =
    ground (arith, clear_cells-at (i + 1) count (write_cell buf i crt_erase_char) j)

-- `cga_scrup` moves each row up by one, blanks the last row and touches no cell beyond the screen.
pub cga_scrup-at :
    (s : Cga) (j : ℕ)
    → (cga_scrup s).crt_buf j ≡ (
        if ltb j (24 * 80)
        then s.crt_buf (80 + j)
        else if ltb j (25 * 80)
        then crt_erase_char
        else s.crt_buf j)
unfolding cga_scrup
cga_scrup-at s j =
    ground (
      arith,
      clear_cells-at 1920 80 (copy_rows 0 1920 s.crt_buf) j,
      copy_rows-at 0 1920 s.crt_buf j,
    )
