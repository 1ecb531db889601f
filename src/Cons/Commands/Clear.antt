-- ===== src/Cons/Commands/Clear.antt =====
-- What the command `clear` of kern/cons/shell.c leaves on the screen.
use zonix.Prelude.{
  ltb, if◌then◌else◌, Bool-cases, ℕ, zero, suc, ◌+◌, ◌-◌, ◌*◌, ◌/◌, ◌≤◌, ◌<◌, ◌≡◌, refl, ap, ◌∙◌,
  inl, inr, arith,
}
use zonix.Cons.Stdio.{cprintf, cprintf_loop, directive}
use zonix.Drivers.Cga.{Cga, cga_putc, cga_switch, new_line, cur_update, crt_erase_char, u16}
use zonix.Drivers.Cga.Scroll.{cga_scrup-at}
use zonix.Drivers.Cga.Cursor.{cga_putc-pos}
use zonix.Cons.Commands.{Console, cons_putc, put_text, clear_lines, cmd_clear}

-- The rows from `k` on are erased.
abbrev pub BlankFrom : ℕ → Cga → Type 0
BlankFrom k s = (j : ℕ) → k * 80 ≤ j → j < 2000 → s.crt_buf j ≡ crt_erase_char

new_line-buf :
    (s : Cga) (j : ℕ)
    → s.crt_pos < 2000
    → j < 2000
    → (new_line s).crt_buf j ≡ (
        if ltb s.crt_pos 1920
        then s.crt_buf j
        else if ltb j 1920
        then s.crt_buf (80 + j)
        else crt_erase_char)
unfolding new_line
new_line-buf s j h b = ground (arith, cga_scrup-at (record s { crt_pos = u16 (s.crt_pos + 80) }) j)

cga_putc-new_line : (s : Cga) (j : ℕ) → (cga_putc 10 s).crt_buf j ≡ (new_line s).crt_buf j
unfolding cga_putc cga_switch cur_update
cga_putc-new_line s j = refl

-- A line feed goes one row down, and on the last row moves the blank rows up instead.
line_feed-BlankFrom :
    (k : ℕ) (s : Cga)
    → s.crt_pos < 2000
    → BlankFrom k s
    → BlankFrom (if ltb s.crt_pos 1920 then k else k - 1) (cga_putc 10 s)
line_feed-BlankFrom k s h blank j lo hi =
    let buf = cga_putc-new_line s j ∙ new_line-buf s j h hi in
    elim (Bool-cases (ltb s.crt_pos 1920)) [
      | inl e ↦ buf ∙ rw e (blank j (rw e at lo) hi)
      | inr e ↦ elim (Bool-cases (ltb j 1920)) [
        | inl f ↦
            buf
            ∙ rw (e, f)
                (blank (80 + j) (let low : (k - 1) * 80 ≤ j = rw e at lo in omega arith)
                  (ground arith))
        | inr f ↦ buf ∙ rw (e, f) refl
      ]
    ]

line_feed-pos :
    (s : Cga)
    → s.crt_pos < 2000
    → (cga_putc 10 s).crt_pos ≡ (if ltb s.crt_pos 1920 then (s.crt_pos / 80 + 1) * 80 else 1920)
line_feed-pos s h = cga_putc-pos 10 s (ground arith) h

-- The characters that the loop prints.
clear_lines_next :
    (n : ℕ) (s : Console)
    → put_text (clear_lines (suc n)) s ≡ put_text (clear_lines n) (cons_putc 10 s)
unfolding put_text clear_lines cprintf cprintf_loop directive
clear_lines_next n s = refl

cons_putc-cga : (c : ℕ) (s : Console) → (cons_putc c s).cga ≡ cga_putc c s.cga
unfolding cons_putc
cons_putc-cga c s = refl

clear_lines-blank :
    (n k : ℕ) (s : Console)
    → s.cga.crt_pos < 2000
    → BlankFrom k s.cga
    → k + 24 ≤ n + s.cga.crt_pos / 80
    → BlankFrom 0 (put_text (clear_lines n) s).cga
unfolding put_text clear_lines
clear_lines-blank zero k s h blank enough = λ j lo hi. blank j (omega arith) hi
clear_lines-blank (suc n) k s h blank enough =
    let t = cons_putc 10 s in
    let cga = cons_putc-cga 10 s in
    let pos : t.cga.crt_pos
        ≡ (if ltb s.cga.crt_pos 1920 then (s.cga.crt_pos / 80 + 1) * 80 else 1920) =
      ap (λ c. c.crt_pos) cga ∙ line_feed-pos s.cga h in
    rw (clear_lines_next n s) (
      clear_lines-blank n (if ltb s.cga.crt_pos 1920 then k else k - 1) t (ground arith)
        (rw cga (line_feed-BlankFrom k s.cga h blank)) (ground arith))

clear_lines_end : (s : Console) → put_text (clear_lines 0) s ≡ s
unfolding put_text clear_lines
clear_lines_end s = refl

clear_lines-pos :
    (n : ℕ) (s : Console)
    → s.cga.crt_pos < 2000
    → 23 ≤ n + s.cga.crt_pos / 80
    → (put_text (clear_lines (suc n)) s).cga.crt_pos ≡ 1920
clear_lines-pos zero s h enough =
    rw
      (
        clear_lines_next 0 s,
        clear_lines_end (cons_putc 10 s),
        cons_putc-cga 10 s,
        line_feed-pos s.cga h,
      )
      (ground arith)
clear_lines-pos (suc n) s h enough =
    let t = cons_putc 10 s in
    let pos : t.cga.crt_pos
        ≡ (if ltb s.cga.crt_pos 1920 then (s.cga.crt_pos / 80 + 1) * 80 else 1920) =
      ap (λ c. c.crt_pos) (cons_putc-cga 10 s) ∙ line_feed-pos s.cga h in
    rw (clear_lines_next (suc n) s) (clear_lines-pos n t (ground arith) (ground arith))

-- From a cursor on the screen, if all cells in the rows below the cursor's are erased, then the 25 line feeds of the
-- command `clear` erase every cell of the screen and leave the cursor at the start of the last row.
pub cmd_clear-blank :
    (s : Console)
    → s.cga.crt_pos < 2000
    → BlankFrom (s.cga.crt_pos / 80 + 1) s.cga
    → ((j : ℕ) → j < 2000 → (put_text cmd_clear s).cga.crt_buf j ≡ crt_erase_char)
      × ((put_text cmd_clear s).cga.crt_pos ≡ 1920)
unfolding cmd_clear
cmd_clear-blank s h blank = (
  λ j hi. clear_lines-blank 25 (s.cga.crt_pos / 80 + 1) s h blank (omega arith) j (omega arith) hi,
  clear_lines-pos 24 s h (omega arith),
)
