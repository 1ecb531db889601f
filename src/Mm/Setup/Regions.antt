-- ===== src/Mm/Setup/Regions.antt =====
-- `page_init` of kern/mm/pmm.c gives the first-fit manager the memory of the map.
use zonix.Prelude.{
  ltb, ◌==◌, if◌then◌else◌, ℕ, ◌+◌, ◌-◌, ◌/◌, ◌%◌, ◌^◌, ◌<◌, ◌≡◌, Bool, true, ◌&&◌, List, [], ◌∷◌,
  map,
}
use zonix.Mm.FirstFit.Blocks.{block, Block, Blocks}
use zonix.Mm.Setup.{Region, e820_ram, max_address, valid_mem_of}

-- The end of the array of descriptors, `valid_mem` of `page_init`.
abbrev pub valid_mem : ℕ → List Region → ℕ
valid_mem kernel_end map = valid_mem_of kernel_end (max_address map 0 / 4096 % 2 ^ 32)

-- The part of a region that may be used, in bytes: behind the kernel and up to its limit.
abbrev pub first_of : ℕ → Region → ℕ
first_of valid r = if ltb r.addr valid then valid else r.addr

abbrev pub limit_of : Region → ℕ
limit_of r = r.addr + r.size

abbrev pub is_usable : ℕ → Region → Bool
is_usable valid r = (r.type == e820_ram) && ltb (first_of valid r) (limit_of r)

-- Its whole pages.
abbrev pub pages_of : ℕ → Region → Block
pages_of valid r =
    let first = (first_of valid r + 4095) / 4096 in block first (limit_of r / 4096 - first)

-- The blocks of the usable regions of the map, in its order.
abbrev pub blocks_of : ℕ → List Region → Blocks
blocks_of valid [] = []
blocks_of valid (r ∷ rs) =
    if is_usable valid r then pages_of valid r ∷ blocks_of valid rs else blocks_of valid rs

-- Each usable region ends below 4 GiB, and each region's end has 64 bits.
abbrev pub Below4G : ℕ → List Region → Type 0
Below4G valid [] = Unit {0}
Below4G valid (r ∷ rs) =
    (limit_of r < 2 ^ 64) × (is_usable valid r ≡ true → limit_of r < 2 ^ 32) × Below4G valid rs
