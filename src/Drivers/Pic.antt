-- ===== src/Drivers/Pic.antt =====
-- kern/drivers/pic.c: the two interrupt controllers. The writes to their ports are kept in order.
pub mod Mask
use zonix.Prelude.{leb, if◌then◌else◌, ℕ, zero, suc, ◌+◌, ◌*◌, ◌/◌, ◌%◌, List, [], ◌∷◌, ◌++◌}

abbrev pub pic1_cmd : ℕ
pic1_cmd = 0x20

abbrev pub pic1_imr : ℕ
pic1_imr = 0x21

abbrev pub pic2_cmd : ℕ
pic2_cmd = 0xA0

abbrev pub pic2_imr : ℕ
pic2_imr = 0xA1

abbrev pub irq_slave : ℕ
irq_slave = 2

-- The static `irq_mask`, 16 bits, and the bytes written to each port.
pub record Pic : Type 0 where
  pub irq_mask : ℕ
  pub ports : List (ℕ × ℕ)

-- `outb`, which writes a byte.
abbrev pub outb : ℕ → ℕ → Pic → Pic
outb port value s = record s { ports = s.ports ++ (port, value % 256) ∷ [] }

unfoldable pub pic_setmask : ℕ → Pic → Pic
pic_setmask mask s = outb pic2_imr (mask / 256) (outb pic1_imr mask (record s { irq_mask = mask }))

-- `mask & ~(1 << irq)`, from the lowest bit on.
unfoldable pub clear_bit : ℕ → ℕ → ℕ
clear_bit mask zero = mask / 2 * 2
clear_bit mask (suc irq) = clear_bit (mask / 2) irq * 2 + mask % 2

unfoldable pub pic_enable : ℕ → Pic → Pic
pic_enable irq s = pic_setmask (clear_bit s.irq_mask irq) s

unfoldable pub pic_send_eoi : ℕ → Pic → Pic
pic_send_eoi irq s = outb pic1_cmd 0x20 (if leb 8 irq then outb pic2_cmd 0x20 s else s)

unfoldable pub pic_init : Pic → Pic
pic_init s = pic_enable irq_slave s
