-- ===== src/Examples/Memory.antt =====
-- Concrete memory and lists for kern/mm and kern/include/list.h.
use zonix.Prelude.{
  ltb, leb, if◌then◌else◌, ℕ, ◌≡◌, refl, ◌↔◌, inr, true, ◌&&◌, none, some, List, [], ◌∷◌, arith,
}
use zonix.Links.{Links, list_init, list_add}
use zonix.Links.Ring.{Ring}
use zonix.Links.Ops.{Ring-list_init, Ring-list_add}
use zonix.Mm.Page.{Page, pra_list_head}
use zonix.Mm.FirstFit.{Pmm, init, init_memmap, alloc, free, check}
use zonix.Mm.FirstFit.Blocks.{block, Blocks, count, first_fit, release}
use zonix.Mm.FirstFit.Invariant.{IsFree}
use zonix.Mm.FirstFit.Alloc.{taken, left, Allocated, alloc-first_fit}
use zonix.Mm.FirstFit.Free.{free-release}
use zonix.Mm.FirstFit.Setup.{init-IsFree, init_memmap-IsFree}
use zonix.Mm.FirstFit.Clients.{TooSmall, free-alloc, alloc-none_iff}
use zonix.Mm.FirstFit.SelfCheck.{found_any, check-passes}
use zonix.Mm.Swap.{victims, map_all}
use zonix.Mm.Swap.Fifo.{Swap, Holds, swap_fifo_init_mm, swap_mgr_fifo, fifo_order}
use zonix.Mm.Swap.Lru.{swap_lru_init_mm, swap_lru_map_swappable, lru_map_new}
use zonix.Mm.PageTable.{Vm, get_pte}

abbrev no_links : Links
no_links = record { next = λ a. 0; prev = λ a. 0 }

abbrev no_memory : Pmm
no_memory = record {
  links = no_links;
  pages = λ p. record { ref = 0; flags = 0; property = 0 };
  nr_free = 0;
}

abbrev one_block : Blocks
one_block = block 10 8 ∷ []

-- Eight pages from page 10.
abbrev memory : Pmm
memory = init_memmap 10 8 (init no_memory)

memory-IsFree : IsFree memory one_block
memory-IsFree =
    init_memmap-IsFree 10 8 (init no_memory) [] (init-IsFree no_memory) (ground arith) tt
      (ground arith)

alloc-first_fit_example : Allocated 3 5 memory one_block (first_fit 5 one_block)
alloc-first_fit_example =
    alloc-first_fit 3 5 memory one_block memory-IsFree (ground arith) (ground arith)

free-release_example : (t : Pmm) × (free 3 18 2 memory ≡ some t) × IsFree t (release 18 2 one_block)
free-release_example =
    free-release 3 18 2 memory one_block memory-IsFree (ground arith) (inr (ground arith), tt)
      (ground arith) (ground arith)

handed : Allocated 3 5 memory one_block (first_fit 5 one_block)
handed = alloc-first_fit 3 5 memory one_block memory-IsFree (ground arith) (ground arith)

abbrev handed_state : Pmm
handed_state = handed.0

handed_page : alloc 3 5 memory ≡ some (some 10, handed_state)
unfolding first_fit
handed_page = handed.1

free-alloc_example :
    (u : Pmm) × (cs : Blocks) × (free 3 10 5 handed_state ≡ some u)
    × IsFree u cs
    × ((i : Page) → count i cs ≡ count i one_block)
    × (u.nr_free ≡ memory.nr_free)
free-alloc_example =
    free-alloc 3 5 memory handed_state one_block 10 memory-IsFree (ground arith) (ground arith)
      handed_page

alloc-none_iff_example : (alloc 3 9 memory ≡ some (none, memory)) ↔ TooSmall 9 one_block
alloc-none_iff_example =
    alloc-none_iff 3 9 memory one_block memory-IsFree (ground arith) (ground arith)

check-passes_example :
    (t : Pmm) × (check 3 memory ≡ some (found_any (taken (first_fit 5 one_block)), t))
    × IsFree t (left one_block (first_fit 5 one_block))
check-passes_example = check-passes 3 memory one_block memory-IsFree (ground arith)

-- A list with header 1 and the entry 5.
abbrev one_entry : Links
one_entry = list_add 1 5 (list_init 1 no_links)

one_entry-Ring : Ring one_entry 1 (5 ∷ [])
one_entry-Ring = Ring-list_add (list_init 1 no_links) 1 5 [] [] (Ring-list_init no_links 1) refl

abbrev three_pages : List Page
three_pages = 7 ∷ 4 ∷ 9 ∷ []

abbrev no_swap : Swap
no_swap = record { links = no_links; swap_list = 0 }

fifo_order_example :
    victims swap_mgr_fifo 3 (map_all swap_mgr_fifo three_pages (swap_fifo_init_mm no_swap))
    ≡ some 7 ∷ some 4 ∷ some 9 ∷ []
fifo_order_example = fifo_order three_pages no_swap (refl, (refl, (refl, tt)))

lru_empty-Holds : Holds (swap_lru_init_mm no_swap) []
unfolding swap_lru_init_mm
lru_empty-Holds = (refl, Ring-list_init no_links pra_list_head)

abbrev lru_one : Swap
lru_one = swap_lru_map_swappable 0x7000 7 (swap_lru_init_mm no_swap)

lru_one-Holds : Holds lru_one (7 ∷ [])
lru_one-Holds =
    lru_map_new 0x7000 7 (swap_lru_init_mm no_swap) [] lru_empty-Holds refl
      (unfold swap_lru_init_mm list_init in refl)

-- Every word names the page at 0x1000 and is present.
abbrev mapped : Vm
mapped = record { pmm = no_memory; mem = λ a. 0x1001 }

mapped_entry : get_pte 0 0 0x5000 true mapped ≡ some (some 0x1014, mapped)
unfolding get_pte
mapped_entry = refl

-- The entries 2 and 3 are present.
abbrev two_entries : ℕ → ℕ
two_entries i = if leb 2 i && ltb i 4 then 7 else 0
