-- ===== src/Mm/SwapSpace/Start.antt =====
-- `swap_init` of kern/mm/swap.c on the block devices that kern/drivers/blk.c registered.
use zonix.Prelude.{codes, ℕ, ◌*◌, ◌/◌, ◌%◌, ◌^◌, Option, none, some, [], ◌∷◌, ◌++◌}
use zonix.Cons.Stdio.{Text, word, text, cprintf}
use zonix.Drivers.Blk.{BlockDevice, Registry, blk_get_device, blk_type_disk}
use zonix.Mm.Swap.{SwapManager}
use zonix.Mm.SwapSpace.{swap_start_sector, swap_slots}

unfoldable pub swapfs_text : BlockDevice → Text
swapfs_text dev =
    cprintf (codes "swapfs init: using device '%s' for swap\n") (text dev.name ∷ [])
    ++ cprintf (codes "swapfs init: swap starts at sector %d\n") (word swap_start_sector ∷ [])

-- The device and what is printed; without a disk the source reads through NULL, and here it is `none`.
unfoldable pub swapfs_init : Registry → Option (BlockDevice × Text)
swapfs_init r = elim (blk_get_device blk_type_disk r) [
  | none ↦ none
  | some dev ↦ some (dev, swapfs_text dev)
]

abbrev pub swap_text : ℕ → Text
swap_text slots =
    cprintf (codes "swap: available space = %d pages (%d MB)\n")
      (word slots ∷ word (slots * 4096 % 2 ^ 32 / 2 ^ 20) ∷ [])
    ++ cprintf (codes "swap: manager = %s\n") (text (codes "fifo swap manager") ∷ [])

-- The swap device, `max_swap_offset`, and what is printed.
abbrev pub started : Option (BlockDevice × Text) → Option (BlockDevice × ℕ × Text)
started none = none
started (some (dev, lines)) =
    some (dev, swap_slots dev.size, lines ++ swap_text (swap_slots dev.size))

unfoldable pub swap_init : Registry → Option (BlockDevice × ℕ × Text)
swap_init r = started (swapfs_init r)

-- The manager in use has an `init_mm`.
unfoldable pub swap_init_mm : {S : Type 0} → SwapManager S → S → S
swap_init_mm m s = m.init_mm s

abbrev device_text : Option BlockDevice → Option (BlockDevice × Text)
device_text o = elim o [ none ↦ none | some dev ↦ some (dev, swapfs_text dev) ]
