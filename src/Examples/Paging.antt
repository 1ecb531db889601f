-- ===== src/Examples/Paging.antt =====
-- Page faults at concrete tables for kern/mm/vmm.c and kern/mm/swap.c.
use zonix.Prelude.{
  ◌==◌, if◌then◌else◌, ℕ, ◌+◌, ◌-◌, ◌%◌, ◌≡◌, refl, ◌≢◌, inr, Bool, true, false, some, [], ◌∷◌,
  arith,
}
use zonix.Links.{Links}
use zonix.Mm.FirstFit.{Pmm, init, init_memmap, alloc, free}
use zonix.Mm.FirstFit.Blocks.{block, first_fit, release, merge}
use zonix.Mm.FirstFit.Invariant.{IsFree}
use zonix.Mm.FirstFit.Setup.{init-IsFree, init_memmap-IsFree}
use zonix.Mm.FirstFit.Alloc.{Allocated, alloc-first_fit}
use zonix.Mm.FirstFit.Free.{free-release}
use zonix.Mm.PageTable.{
  get_pte, page2pa, is_present, find_vaddr_for_page, find_in_directory, find_in_table,
}
use zonix.Mm.PageTable.Insert.{LeadsTo, LeadsTo-same}
use zonix.Mm.Swap.Fifo.{Swap, swap_mgr_fifo}
use zonix.Mm.SwapSpace.{SwapSpace, vmm_pg_fault, swap_page, swap_entry, swap_sector}
use zonix.Mm.SwapSpace.Fault.{vmm_pg_fault-maps}
use zonix.Mm.SwapSpace.Return.{Mapped, swap_page-vmm_pg_fault}

abbrev pub no_links : Links
no_links = record { next = λ a. 0; prev = λ a. 0 }

abbrev pub no_memory : Pmm
no_memory = record {
  links = no_links;
  pages = λ p. record { ref = 0; flags = 0; property = 0 };
  nr_free = 0;
}

-- Eight pages from page 10.
abbrev pub memory : Pmm
memory = init_memmap 10 8 (init no_memory)

pub memory-IsFree : IsFree memory (block 10 8 ∷ [])
memory-IsFree =
    init_memmap-IsFree 10 8 (init no_memory) [] (init-IsFree no_memory) (ground arith) tt
      (ground arith)

handed : Allocated 3 1 memory (block 10 8 ∷ []) (first_fit 1 (block 10 8 ∷ []))
handed = alloc-first_fit 3 1 memory (block 10 8 ∷ []) memory-IsFree (ground arith) (ground arith)

abbrev handed_state : Pmm
handed_state = handed.0

handed_page : alloc 3 1 memory ≡ some (some 10, handed_state)
unfolding first_fit
handed_page = handed.1

-- The directory at 0x1000 has a table at 0x2000 for the addresses from 0x400000 on; its first word is given.
abbrev tables : ℕ → ℕ → ℕ
tables word a = if a == 0x1004 then 0x2007 else if a == 0x2000 then word else 0

abbrev space : ℕ → SwapSpace Swap
space word = record {
  vm = record { pmm = memory; mem = tables word };
  mgr = record { links = no_links; swap_list = 0 };
  swap_offset = 3;
  max_swap_offset = 100;
  written = [];
}

walk : get_pte 3 0x1000 0x400000 true (space 0).vm ≡ some (some 0x2000, (space 0).vm)
unfolding get_pte
walk = refl

vmm_pg_fault-maps_example :
    (v : SwapSpace Swap) × (vmm_pg_fault swap_mgr_fifo (λ n. true) 3 0x1000 0x400123 (space 0)
      ≡ some v)
    × LeadsTo v.vm 0x1000 0x400123 0x2000
    × (v.vm.mem 0x2000 ≡ page2pa 10 + 5)
    × ((x : ℕ) → x ≢ 0x2000 → v.vm.mem x ≡ tables 0 x)
    × ((v.vm.pmm.pages 10).ref ≡ (handed_state.pages 10).ref + 1)
    × (v.mgr ≡ (space 0).mgr)
    × (v.written ≡ [])
vmm_pg_fault-maps_example =
    vmm_pg_fault-maps swap_mgr_fifo (λ n. true) 3 0x1000 0x400123 0x2000 10 (space 0) (space 0).vm
      handed_state walk refl (λ e. ground arith) handed_page

-- Page 18 is mapped.
abbrev used : SwapSpace Swap
used = space 0x12007

used-Mapped : Mapped used.vm 0x1000 18 0x400000 0x2000
unfolding find_vaddr_for_page find_in_directory find_in_table
used-Mapped = record {
  found = refl;
  nonzero = λ e. ground arith;
  leads = LeadsTo-same used.vm used.vm 0x1000 0x400000 0x2000 refl refl refl;
  apart = λ e. ground arith;
}

freed : (t : Pmm) × (free 3 18 1 memory ≡ some t) × IsFree t (release 18 1 (block 10 8 ∷ []))
freed =
    free-release 3 18 1 memory (block 10 8 ∷ []) memory-IsFree (ground arith)
      (inr (ground arith), tt) (ground arith) (ground arith)

freed_state : IsFree (freed.0) (block 10 9 ∷ [])
unfolding release merge
freed_state = freed.2

taken : Allocated 3 1 (freed.0) (block 10 9 ∷ []) (first_fit 1 (block 10 9 ∷ []))
taken = alloc-first_fit 3 1 (freed.0) (block 10 9 ∷ []) freed_state (ground arith) (ground arith)

abbrev taken_state : Pmm
taken_state = taken.0

taken_page : alloc 3 1 (freed.0) ≡ some (some 10, taken_state)
unfolding first_fit
taken_page = taken.1

abbrev only_written : ℕ → Bool
only_written sector = sector == 1024

read_back : only_written (swap_sector (swap_entry 3)) ≡ true
unfolding swap_sector swap_entry
read_back = refl

swap_page-vmm_pg_fault_example :
    (t : SwapSpace Swap) × (v : SwapSpace Swap) × (swap_page swap_mgr_fifo
        (λ n. true)
        3
        0x1000
        18
        used
      ≡ some t)
    × (t.vm.mem 0x2000 ≡ swap_entry 3)
    × (is_present (t.vm.mem 0x2000) ≡ false)
    × (t.written ≡ (swap_sector (swap_entry 3), 18) ∷ [])
    × (vmm_pg_fault swap_mgr_fifo only_written 3 0x1000 0x400123 t ≡ some v)
    × LeadsTo v.vm 0x1000 0x400000 0x2000
    × (v.vm.mem 0x2000 ≡ page2pa 10 + 7)
    × (v.mgr ≡ swap_mgr_fifo.map_swappable (0x400123 - 0x400123 % 4096) 10 used.mgr)
swap_page-vmm_pg_fault_example =
    swap_page-vmm_pg_fault swap_mgr_fifo (λ n. true) only_written 3 0x1000 18 10 0x400000 0x2000
      0x400123 used (freed.0) taken_state used-Mapped (ground arith) (ground arith) refl (freed.1)
      refl read_back taken_page
