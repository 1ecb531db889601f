-- ===== src/Mm/Setup.antt =====
-- kern/mm/pmm.c and kern/arch/x86/e820.c: the memory map of the BIOS and the set-up of the free pages,
-- and the allocator of whole pages for the kernel. Addresses of the map have 64 bits, all others 32.
pub mod Regions
pub mod Kmalloc
use zonix.Prelude.{
  ltb, ◌==◌, if◌then◌else◌, get_elem?, ℕ, zero, suc, ◌+◌, ◌-◌, ◌*◌, ◌/◌, ◌%◌, ◌^◌, ◌&&◌, Option,
  none, some, List, [], ◌∷◌, map,
}
use zonix.Mm.Page.{Page, Pages, update, set_page_reserved}
use zonix.Mm.FirstFit.{Pmm, init, init_memmap}
use zonix.Mm.PageTable.{Vm, page2pa, pa2page, alloc_pages, pages_free}

abbrev pub e820_ram : ℕ
e820_ram = 1

abbrev pub kernel_base : ℕ
kernel_base = 0xC0000000

-- An entry of `e820map`.
pub record Region : Type 0 where
  pub addr : ℕ
  pub size : ℕ
  pub type : ℕ

unfoldable pub round_down : ℕ → ℕ → ℕ
round_down a n = let low = a % 2 ^ 32 in low - low % n

unfoldable pub round_up : ℕ → ℕ → ℕ
round_up a n = round_down (a % 2 ^ 32 + n - 1) n

-- `e820map_get_items`, with the entries up to `nr_map`.
unfoldable pub e820map_get_items : List Region → ℕ → Option Region
e820map_get_items map index = get_elem? map index

-- The first loop of `page_init` over the entries; `addr + size` wraps at 2 ^ 64.
unfoldable pub max_address : List Region → ℕ → ℕ
max_address [] max_pa = max_pa
max_address (r ∷ rs) max_pa =
    let limit = (r.addr + r.size) % 2 ^ 64 in
    max_address rs (if (r.type == e820_ram) && ltb max_pa limit then limit else max_pa)

-- `SET_PAGE_RESERVED(pages + i)` for each `i` below the bound.
unfoldable pub reserve_pages : ℕ → Pages → Pages
reserve_pages zero pages = pages
reserve_pages (suc i) pages = update i set_page_reserved (reserve_pages i pages)

abbrev pub sizeof_page_desc : ℕ
sizeof_page_desc = 20

-- The physical address behind the array of descriptors, which follows the kernel.
unfoldable pub valid_mem_of : ℕ → ℕ → ℕ
valid_mem_of kernel_end npage =
    (round_up kernel_end 4096 + npage * sizeof_page_desc + (2 ^ 32 - kernel_base)) % 2 ^ 32

-- The body of the second loop.
unfoldable pub add_region : ℕ → Region → Pmm → Pmm
add_region valid_mem r s =
    let limit = (r.addr + r.size) % 2 ^ 64 in
    let addr = if ltb r.addr valid_mem then valid_mem else r.addr in
    let first = round_up addr 4096 in
    let pages = (round_down limit 4096 + 2 ^ 64 - first) % 2 ^ 64 / 4096 % 2 ^ 32 in
    if r.type == e820_ram
    then if ltb addr limit then init_memmap (pa2page first) pages s else s
    else s

unfoldable pub add_regions : ℕ → List Region → Pmm → Pmm
add_regions valid_mem [] s = s
add_regions valid_mem (r ∷ rs) s = add_regions valid_mem rs (add_region valid_mem r s)

unfoldable pub page_init : ℕ → List Region → Pmm → Pmm
page_init kernel_end map s =
    let npage = max_address map 0 / 4096 % 2 ^ 32 in
    let s = record s { pages = reserve_pages npage s.pages } in
    add_regions (valid_mem_of kernel_end npage) map s

-- `pmm_mgr_init` and `page_init`.
unfoldable pub pmm_init : ℕ → List Region → Pmm → Pmm
pmm_init kernel_end map s = page_init kernel_end map (init s)

unfoldable pub page2kva : Page → ℕ
page2kva page = (kernel_base + page2pa page) % 2 ^ 32

unfoldable pub kva2page : ℕ → Page
kva2page kva = pa2page ((kva + 2 ^ 32 - kernel_base) % 2 ^ 32)

-- NULL, 0, if there is no page.
abbrev pub kva_of : Option (Option Page × Vm) → Option (ℕ × Vm)
kva_of none = none
kva_of (some (none, s)) = some (0, s)
kva_of (some (some page, s)) = some (page2kva page, s)

-- The size asked for is not looked at.
unfoldable pub kmalloc : ℕ → ℕ → Vm → Option (ℕ × Vm)
kmalloc fuel size s = kva_of (alloc_pages fuel 1 s)

unfoldable pub kfree : ℕ → ℕ → Vm → Option Vm
kfree fuel ptr s = if ptr == 0 then some s else pages_free fuel (kva2page ptr) 1 s
