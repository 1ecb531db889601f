-- ===== src/Mm/PageTable.antt =====
-- kern/mm/pmm.c and include/arch/x86/mmu.h: addresses and the two levels of page tables. The words of
-- memory are given by physical address; `K_ADDR` of such an address is taken for the address itself,
-- as it is for memory that the kernel has mapped: 4 MiB while vmm_init runs, 896 MiB after it. An access to
-- memory behind that is not modelled as a fault. A page table entry is a word; bit 0 is PTE_P.
pub mod Walk
pub mod Items
pub mod Insert
pub mod Found
use Prim.Native.Nat.{bit_or}
use zonix.Prelude.{
  ltb, leb, ◌==◌, if◌then◌else◌, ℕ, zero, suc, ◌+◌, ◌-◌, ◌*◌, ◌/◌, ◌%◌, ◌^◌, Bool, true, false, not,
  ◌&&◌, Option, none, some,
}
use zonix.Mm.Page.{Page, update}
use zonix.Mm.FirstFit.{Pmm, alloc, free}

pub record Vm : Type 0 where
  pub pmm : Pmm
  pub mem : ℕ → ℕ

abbrev pub page2pa : Page → ℕ
page2pa page = page * 4096 % 2 ^ 32

abbrev pub pa2page : ℕ → Page
pa2page pa = pa / 4096

abbrev pub pdx : ℕ → ℕ
pdx la = la / 2 ^ 22 % 1024

abbrev pub ptx : ℕ → ℕ
ptx la = la / 2 ^ 12 % 1024

-- `PTE_ADDR`, and `PDE_ADDR`, which is the same.
abbrev pub pte_addr : ℕ → ℕ
pte_addr pte = pte - pte % 4096

abbrev pub is_present : ℕ → Bool
is_present pte = pte % 2 == 1

abbrev pub write_word : ℕ → ℕ → (ℕ → ℕ) → ℕ → ℕ
write_word a v mem x = if x == a then v else mem x

-- `memset(K_ADDR(pa), 0, PG_SIZE)`
abbrev pub clear_page : ℕ → (ℕ → ℕ) → ℕ → ℕ
clear_page pa mem x = if leb pa x && ltb x (pa + 4096) then 0 else mem x

unfoldable pub alloc_pages : ℕ → ℕ → Vm → Option (Option Page × Vm)
alloc_pages fuel n s = elim (alloc fuel n s.pmm) [
  | none ↦ none
  | some (page, pmm) ↦ some (page, record s { pmm = pmm })
]

unfoldable pub pages_free : ℕ → Page → ℕ → Vm → Option Vm
pages_free fuel base n s = elim (free fuel base n s.pmm) [
  | none ↦ none
  | some pmm ↦ some (record s { pmm = pmm })
]

-- `pdep` is set to the new table; the low bits of a page's address are clear, so `|` is a sum.
unfoldable pub new_table : ℕ → Page → Vm → Vm
new_table pdep page s =
    let pa = page2pa page in
    record {
      pmm = record s.pmm { pages = update page (λ d. record d { ref = 1 }) s.pmm.pages };
      mem = write_word pdep (pa + 7) (clear_page pa s.mem);
    }

abbrev pub table_entry : ℕ → ℕ → Vm → ℕ
table_entry pdep la s = pte_addr (s.mem pdep) + 4 * ptx la

-- What `get_pte` does with the page for a missing table.
abbrev pub add_table : ℕ → ℕ → Option (Option Page × Vm) → Option (Option ℕ × Vm)
add_table pdep la none = none
add_table pdep la (some (none, s)) = some (none, s)
add_table pdep la (some (some page, s)) =
    let t = new_table pdep page s in some (some (table_entry pdep la t), t)

-- The address of the entry for `la`; the outer `none` is the end of the fuel.
unfoldable pub get_pte : ℕ → ℕ → ℕ → Bool → Vm → Option (Option ℕ × Vm)
get_pte fuel pgdir la create s =
    let pdep = pgdir + 4 * pdx la in
    if is_present (s.mem pdep)
    then some (some (table_entry pdep la s), s)
    else if not create
    then some (none, s)
    else add_table pdep la (alloc_pages fuel 1 s)

-- The rest of `page_insert`: the reference and the entry, `perm` without PTE_P.
abbrev pub insert_at : Page → ℕ → Option (Option ℕ × Vm) → Option (Bool × Vm)
insert_at page perm none = none
insert_at page perm (some (none, s)) = some (false, s)
insert_at page perm (some (some ptep, s)) = some (
  true,
  record {
    pmm = record s.pmm { pages = update page (λ d. record d { ref = d.ref + 1 }) s.pmm.pages };
    mem = write_word ptep (bit_or (bit_or (page2pa page) perm) 1) s.mem;
  },
)

unfoldable pub page_insert : ℕ → ℕ → Page → ℕ → ℕ → Vm → Option (Bool × Vm)
page_insert fuel pgdir page la perm s = insert_at page perm (get_pte fuel pgdir la true s)

-- The inner loop of `find_vaddr_for_page`, over `n` entries from `pte_idx` of the table at `pt`.
unfoldable pub find_in_table : ℕ → ℕ → ℕ → ℕ → (ℕ → ℕ) → Option ℕ
find_in_table pa pt pte_idx zero mem = none
find_in_table pa pt pte_idx (suc n) mem =
    let pte = mem (pt + 4 * pte_idx) in
    let rest = find_in_table pa pt (pte_idx + 1) n mem in
    if is_present pte && (pte_addr pte == pa) then some pte_idx else rest

-- The outer loop; 0 is "not found", as in the source.
unfoldable pub find_in_directory : ℕ → ℕ → ℕ → ℕ → (ℕ → ℕ) → ℕ
find_in_directory pa pgdir pde_idx zero mem = 0
find_in_directory pa pgdir pde_idx (suc n) mem =
    let pde = mem (pgdir + 4 * pde_idx) in
    elim (if is_present pde then find_in_table pa (pte_addr pde) 0 1024 mem else none) [
      | some pte_idx ↦ pde_idx * 2 ^ 22 + pte_idx * 2 ^ 12
      | none ↦ find_in_directory pa pgdir (pde_idx + 1) n mem
    ]

unfoldable pub find_vaddr_for_page : ℕ → Page → (ℕ → ℕ) → ℕ
find_vaddr_for_page pgdir page mem = find_in_directory (page2pa page) pgdir 0 1024 mem

-- `pgdir_alloc_page`, which does not look at the result of `page_insert`.
abbrev pub insert_page : Page → Option (Bool × Vm) → Option (Option Page × Vm)
insert_page page none = none
insert_page page (some (done, s)) = some (some page, s)

unfoldable pub pgdir_alloc_page : ℕ → ℕ → ℕ → ℕ → Vm → Option (Option Page × Vm)
pgdir_alloc_page fuel pgdir la perm s = elim (alloc_pages fuel 1 s) [
  | none ↦ none
  | some (none, t) ↦ some (none, t)
  | some (some page, t) ↦ insert_page page (page_insert fuel pgdir page la perm t)
]
