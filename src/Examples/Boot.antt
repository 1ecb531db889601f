-- ===== src/Examples/Boot.antt =====
-- A disk and a memory map for boot/bootload.c and kern/mm/pmm.c.
use zonix.Prelude.{
  ◌==◌, if◌then◌else◌, ℕ, ◌+◌, ◌*◌, ◌%◌, ◌^◌, ◌≤◌, ◌<◌, ◌≡◌, refl, ap, ◌≢◌, ◌⊎◌, some, List, [],
  ◌∷◌, arith,
}
use zonix.Mm.FirstFit.{Pmm, init, init_memmap, alloc}
use zonix.Mm.FirstFit.Blocks.{first_fit, block, Blocks, count}
use zonix.Mm.FirstFit.Invariant.{IsFree}
use zonix.Mm.FirstFit.Setup.{init-IsFree, init_memmap-IsFree}
use zonix.Mm.FirstFit.Alloc.{Allocated, alloc-first_fit}
use zonix.Mm.PageTable.{Vm}
use zonix.Mm.Page.{Page}
use zonix.Mm.Setup.{Region, kmalloc, kfree}
use zonix.Mm.Setup.Kmalloc.{kfree-kmalloc}
use zonix.Boot.{Loader, read_command, waitdisk, bootmain, bad, kernel_header}
use zonix.Boot.Segment.{Answers, Delivers}
use zonix.Boot.Header.{bootmain-bad}

-- The disk is always ready.
abbrev ready : ℕ → ℕ
ready n = 0x40

abbrev bytes : ℕ → ℕ
bytes a = a % 251

-- A controller that reads the number of the sector off its registers.
abbrev sector_of : List (ℕ × ℕ) → ℕ
sector_of [] = 0
sector_of (w ∷ ws) =
    (if w.0 == 0x1F3
      then w.1
      else if w.0 == 0x1F4
      then w.1 * 2 ^ 8
      else if w.0 == 0x1F5
      then w.1 * 2 ^ 16
      else if w.0 == 0x1F6
      then w.1 % 16 * 2 ^ 24
      else 0)
    + sector_of ws

abbrev controller : List (ℕ × ℕ) → ℕ → ℕ
controller ws i = bytes (sector_of ws * 512 + i)

ready-Answers : Answers ready controller 1
unfolding waitdisk
ready-Answers n = (n + 1, refl)

controller-Delivers : Delivers ready controller bytes
unfolding read_command
controller-Delivers secno i small less =
    let e : sector_of (read_command secno) ≡ secno = omega arith in ap (λ n. bytes (n * 512 + i)) e

abbrev loader : Loader
loader = record { mem = λ a. 0; polls = 0 }

bootmain-bad_example :
    (t : Loader) × (bootmain ready controller 8 1 loader ≡ some (bad t))
    × ((x : ℕ) → (x < kernel_header) ⊎ (kernel_header + 4096 + 511 ≤ x) → t.mem x ≡ loader.mem x)
bootmain-bad_example =
    bootmain-bad ready controller 8 1 bytes loader ready-Answers controller-Delivers (ground arith)
      (ground arith) (λ e. ground arith)

-- 640 KiB, a hole that is reserved, and 127 MiB behind it.
abbrev bios_map : List Region
bios_map =
    record { addr = 0; size = 0x9FC00; type = 1 }
    ∷ record { addr = 0xF0000; size = 0x10000; type = 2 }
    ∷ record { addr = 0x100000; size = 0x7EE0000; type = 1 }
    ∷ []

abbrev no_memory : Pmm
no_memory = record {
  links = record { next = λ a. 0; prev = λ a. 0 };
  pages = λ p. record { ref = 0; flags = 0; property = 0 };
  nr_free = 0;
}

abbrev machine : Vm
machine = record { pmm = init_memmap 10 8 (init no_memory); mem = λ a. 0 }

machine-IsFree : IsFree machine.pmm (block 10 8 ∷ [])
machine-IsFree =
    init_memmap-IsFree 10 8 (init no_memory) [] (init-IsFree no_memory) (ground arith) tt
      (ground arith)

-- The manager once the first page is taken.
handed : Allocated 3 1 machine.pmm (block 10 8 ∷ []) (first_fit 1 (block 10 8 ∷ []))
handed =
    alloc-first_fit 3 1 machine.pmm (block 10 8 ∷ []) machine-IsFree (ground arith) (ground arith)

abbrev handed_state : Pmm
handed_state = handed.0

handed_page : alloc 3 1 machine.pmm ≡ some (some 10, handed_state)
unfolding first_fit
handed_page = handed.1

kfree-kmalloc_example :
    (ptr : ℕ) × (u : Vm) × (v : Vm) × (cs : Blocks) × (kmalloc 3 100 machine ≡ some (ptr, u))
    × (ptr ≢ 0)
    × (kfree 3 ptr u ≡ some v)
    × IsFree v.pmm cs
    × ((i : Page) → count i cs ≡ count i (block 10 8 ∷ []))
    × (v.pmm.nr_free ≡ machine.pmm.nr_free)
kfree-kmalloc_example =
    kfree-kmalloc 3 100 machine handed_state (block 10 8 ∷ []) 10 machine-IsFree (ground arith)
      handed_page (ground arith)
