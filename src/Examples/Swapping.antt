-- ===== src/Examples/Swapping.antt =====
-- Two pages of kern/mm/swap.c that are swapped out.
use zonix.Prelude.{leb, ◌==◌, if◌then◌else◌, ℕ, ◌+◌, Bool, []}
use zonix.Mm.Swap.Fifo.{Swap, swap_fifo_init_mm, swap_fifo_map_swappable}
use zonix.Mm.SwapSpace.{SwapSpace, swap_start_sector}
use zonix.Mm.SwapSpace.Victims.{Victim}
use zonix.Examples.Paging.{no_links, memory}

-- The table at 0x2000 maps page 18 at 0x400000 and page 19 at 0x401000.
abbrev tables : ℕ → ℕ
tables a =
    if a == 0x1004
    then 0x2007
    else if a == 0x2000
    then 0x12007
    else if a == 0x2004
    then 0x13007
    else 0

abbrev first : Swap
first =
    swap_fifo_map_swappable 0x400000 18
      (swap_fifo_init_mm (record { links = no_links; swap_list = 0 }))

abbrev both : Swap
both = swap_fifo_map_swappable 0x401000 19 first

abbrev space : SwapSpace Swap
space = record {
  vm = record { pmm = memory; mem = tables };
  mgr = both;
  swap_offset = 3;
  max_swap_offset = 100;
  written = [];
}

abbrev low_victim : Victim
low_victim = record { page = 18; addr = 0x400000; entry = 0x2000 }

abbrev high_victim : Victim
high_victim = record { page = 19; addr = 0x401000; entry = 0x2004 }

-- A disk that ends behind the 100 slots.
abbrev small_disk : ℕ → Bool
small_disk sector = leb (sector + 8) (swap_start_sector + 800)
