-- ===== src/Mm/Vmm.antt =====
-- kern/mm/vmm.c: the set-up of the kernel's page directory. What it prints is left out.
pub mod Step
pub mod NewTable
pub mod Entry
pub mod Shown
pub mod Range
pub mod Kernel
use Prim.Native.Nat.{bit_or}
use zonix.Prelude.{ℕ, zero, suc, ◌+◌, ◌*◌, ◌/◌, ◌%◌, ◌^◌, true, Option, none, some}
use zonix.Links.{Ptr, Links, list_init}
use zonix.Mm.PageTable.{Vm, get_pte, write_word, pdx}
use zonix.Mm.Setup.{kernel_base, round_up, round_down}

abbrev pub kernel_mem_size : ℕ
kernel_mem_size = 0x38000000

abbrev pub vpt : ℕ
vpt = 0xFAC00000

-- The numbers of an `mm_struct`; its list has an address in the store of links.
pub record MmStruct : Type 0 where
  pub pgdir : ℕ
  pub map_count : ℕ

unfoldable pub mm_init : Ptr → Links → MmStruct × Links
mm_init mmap_list l = (record { pgdir = 0; map_count = 0 }, list_init mmap_list l)

-- The loop of `pgdir_init` with `n` pages to go. The result of `get_pte` is not tested in the source; a
-- missing entry is the outer `none` here, as is the end of the fuel.
unfoldable pub map_pages : ℕ → ℕ → ℕ → ℕ → ℕ → ℕ → Vm → Option Vm
map_pages fuel pgdir la zero pa perm s = some s
map_pages fuel pgdir la (suc n) pa perm s = elim (get_pte fuel pgdir la true s) [
  | none ↦ none
  | some (none, t) ↦ none
  | some (some ptep, t) ↦
      map_pages fuel pgdir ((la + 4096) % 2 ^ 32) n ((pa + 4096) % 2 ^ 32) perm
        (record t { mem = write_word ptep (bit_or (bit_or pa 1) perm) t.mem })
]

unfoldable pub pgdir_init : ℕ → ℕ → ℕ → ℕ → ℕ → ℕ → Vm → Option Vm
pgdir_init fuel pgdir la size pa perm s =
    map_pages fuel pgdir (round_down la 4096) (round_up size 4096 / 4096) (round_down pa 4096) perm
      s

-- The directory's own entry; `boot_pgdir` is given by its physical address.
abbrev pub map_self : ℕ → Vm → Vm
map_self boot_pgdir s = record s {
  mem = write_word (boot_pgdir + 4 * pdx vpt) (bit_or (bit_or boot_pgdir 1) 2) s.mem;
}

abbrev pub with_mm : MmStruct × Links → ℕ → Option Vm → Option (Vm × MmStruct × Links)
with_mm (mm, l) boot_pgdir none = none
with_mm (mm, l) boot_pgdir (some s) = some (s, record mm { pgdir = boot_pgdir }, l)

unfoldable pub vmm_init : ℕ → ℕ → Ptr → Vm → Links → Option (Vm × MmStruct × Links)
vmm_init fuel boot_pgdir mmap_list s l =
    with_mm (mm_init mmap_list l) boot_pgdir
      (pgdir_init fuel boot_pgdir kernel_base kernel_mem_size 0 2 (map_self boot_pgdir s))
