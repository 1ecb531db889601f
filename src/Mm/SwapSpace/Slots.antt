-- ===== src/Mm/SwapSpace/Slots.antt =====
-- The slots of kern/mm/swap.c.
use zonix.Prelude.{ℕ, ◌+◌, ◌-◌, ◌*◌, ◌/◌, ◌%◌, ◌^◌, ◌≤◌, ◌<◌, ◌≡◌, arith}
use zonix.Mm.SwapSpace.{swap_slots, swap_entry, swap_sector, next_offset}

swap_slots_lem : (size : ℕ) → 1000 ≤ size → size < 2 ^ 27 → swap_slots size ≡ (size - 1000) / 8
unfolding swap_slots
swap_slots_lem size a b = omega arith

swap_sector_lem :
    (offset : ℕ) → offset < 2 ^ 24 → swap_sector (swap_entry offset) ≡ 1000 + 8 * offset
unfolding swap_entry swap_sector
swap_sector_lem offset h = omega arith

swap_entry-absent : (offset : ℕ) → swap_entry offset % 2 ≡ 0
unfolding swap_entry
swap_entry-absent offset = omega arith

pub next_offset-bounds :
    (max offset : ℕ)
    → offset < max
    → 1 ≤ offset
    → (1 ≤ next_offset max offset) × (next_offset max offset < max)
unfolding next_offset
next_offset-bounds max offset h p = ground arith

-- On a device of `size` sectors, at least 1000, the slots that `swap_out` uses one after the other, from
-- 1 on and below `max_swap_offset`, have entries that are not present, and each has its eight sectors on
-- the device. The slot after it is one of them again.
pub swap_sector-bounds :
    (size offset : ℕ)
    → 1000 ≤ size
    → size < 2 ^ 27
    → 1 ≤ offset
    → offset < swap_slots size
    → (swap_sector (swap_entry offset) ≡ 1000 + 8 * offset)
      × (swap_sector (swap_entry offset) + 8 ≤ size)
      × (swap_entry offset % 2 ≡ 0)
      × (1 ≤ next_offset (swap_slots size) offset)
      × (next_offset (swap_slots size) offset < swap_slots size)
swap_sector-bounds size offset a b c d =
    let slots = swap_slots_lem size a b in
    let sector = swap_sector_lem offset (omega (arith, slots, d)) in
    let (low, high) = next_offset-bounds (swap_slots size) offset d c in
    (sector, omega (arith, slots, sector, d), swap_entry-absent offset, low, high)
