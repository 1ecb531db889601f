-- ===== src/Drivers/Cga/Registers.antt =====
-- The registers of the cursor, between `cga_putc` and `cga_init` of kern/drivers/cga.c.
use zonix.Prelude.{
  ◌==◌, if◌then◌else◌, bit_or_byte, ℕ, ◌+◌, ◌*◌, ◌%◌, ◌^◌, ◌<◌, ◌≡◌, refl, ◌∙◌, ◌&&◌, List, [], ◌∷◌,
  ◌++◌, arith,
}
use zonix.Drivers.Cga.{Cga, cga_putc, cga_init}
use zonix.Drivers.Cga.Cursor.{cga_putc-ports}

-- What the register `reg` holds after the writes, from the register chosen before and its value then: the
-- first port chooses a register, the second writes to it.
abbrev pub crtc : ℕ → ℕ → ℕ → List (ℕ × ℕ) → ℕ
crtc reg chosen value [] = value
crtc reg chosen value (w ∷ ws) =
    crtc reg (if w.0 == 0x3D4 then w.1 else chosen)
      (if (w.0 == 0x3D5) && (chosen == reg) then w.1 else value) ws

crtc-cursor :
    (chosen h l hi lo : ℕ) (ws : List (ℕ × ℕ))
    → (crtc 0x0E chosen h (ws ++ (0x3D4, 0x0E) ∷ (0x3D5, hi) ∷ (0x3D4, 0x0F) ∷ (0x3D5, lo) ∷ [])
        ≡ hi)
      × (crtc 0x0F chosen l (ws ++ (0x3D4, 0x0E) ∷ (0x3D5, hi) ∷ (0x3D4, 0x0F) ∷ (0x3D5, lo) ∷ [])
          ≡ lo)
crtc-cursor chosen h l hi lo [] = (refl, refl)
crtc-cursor chosen h l hi lo (w ∷ ws) =
    crtc-cursor (if w.0 == 0x3D4 then w.1 else chosen)
      (if (w.0 == 0x3D5) && (chosen == 0x0E) then w.1 else h)
      (if (w.0 == 0x3D5) && (chosen == 0x0F) then w.1 else l) hi lo ws

cga_init-pos :
    (high low : ℕ) (s : Cga)
    → high < 256
    → low < 256
    → (cga_init high low s).crt_pos ≡ high * 256 + low
unfolding cga_init
cga_init-pos high low s hi lo =
    let e : high * 256 % 2 ^ 16 ≡ high * 256 = omega arith in rw e (bit_or_byte high low lo)

-- Whatever the registers of the cursor held when the ports were first written, after `cga_putc` the
-- controller holds a cursor from which `cga_init` takes the position where `cga_putc` left it.
pub cga_init-cga_putc :
    (chosen high low c : ℕ) (s t : Cga)
    → (cga_putc c s).crt_pos < 2 ^ 16
    → (cga_init
        (crtc 0x0E chosen high (cga_putc c s).ports)
        (crtc 0x0F chosen low (cga_putc c s).ports)
        t).crt_pos
      ≡ (cga_putc c s).crt_pos
cga_init-cga_putc chosen high low c s t b =
    let (hi, lo, ports, sum, hi_byte, lo_byte) = cga_putc-ports c s in
    let (at_high, at_low) = crtc-cursor chosen high low hi lo s.ports in
    rw (ports, at_high, at_low) (cga_init-pos hi lo t hi_byte lo_byte ∙ sum ∙ omega arith)
