-- ===== src/Mm/FirstFit.antt =====
-- kern/mm/pmm_firstfit.c: the first-fit manager of physical pages.
-- Loops along the free list take fuel; `none` means that it ran out.
pub mod Blocks
pub mod Alloc
pub mod Found
pub mod Taken
pub mod Clients
pub mod OneByOne
pub mod OnePage
pub mod Coverage
pub mod Pass
pub mod Rounds
pub mod Free
pub mod Invariant
pub mod Merging
pub mod SelfCheck
pub mod Setup
use zonix.Prelude.{
  ltb, leb, ◌==◌, if◌then◌else◌, ℕ, zero, suc, ◌+◌, ◌-◌, ◌%◌, ◌^◌, Bool, false, not, Option, none,
  some,
}
use zonix.Links.{Ptr, Links, list_init, list_next, list_add, list_add_before, list_del}
use zonix.Mm.Page.{
  Page, PageDesc, Pages, free_list, page_link, le2page, set_page_reserved, clear_page_reserved,
  page_reserved, update,
}

-- `_free` and the array of descriptors. `unsigned int` counters wrap at 2 ^ 32.
pub record Pmm : Type 0 where
  pub links : Links
  pub pages : Pages
  pub nr_free : ℕ

abbrev pub u32 : ℕ → ℕ
u32 n = n % 2 ^ 32

abbrev pub set_property : ℕ → PageDesc → PageDesc
set_property n d = record d { property = n }

unfoldable pub init : Pmm → Pmm
unfolding list_init
init s = record s { links = list_init free_list s.links; nr_free = 0 }

-- The loop of `init_memmap` over the `n` descriptors from `base`.
unfoldable pub clear_pages : Page → ℕ → Pages → Pages
clear_pages base zero pages = pages
clear_pages base (suc n) pages =
    clear_pages (base + 1) n (update base (λ d. record { ref = 0; flags = 0; property = 0 }) pages)

unfoldable pub init_memmap : Page → ℕ → Pmm → Pmm
unfolding clear_pages list_add_before
init_memmap base n s = record {
  pages = update base set_page_reserved (update base (set_property n) (clear_pages base n s.pages));
  nr_free = u32 (s.nr_free + n);
  links = list_add_before free_list (page_link base) s.links;
}

-- The search loop of `alloc`, from the entry `le`: the first entry whose block is large enough.
unfoldable pub find_block : ℕ → ℕ → Ptr → Pmm → Option (Option Ptr)
unfolding list_next
find_block zero n le s = none
find_block (suc fuel) n le s =
    let le' = list_next le s.links in
    let rest = find_block fuel n le' s in
    if le' == free_list
    then some none
    else if leb n (s.pages (le2page le')).property
    then some (some le')
    else rest

-- The split in `alloc`.
unfoldable pub split_block : Ptr → ℕ → Pmm → Pmm
unfolding list_add
split_block le n s =
    let page = le2page le in
    let remaining = page + n in
    let size = (s.pages page).property - n in
    record s {
      pages = update remaining set_page_reserved (update remaining (set_property size) s.pages);
      links = list_add le (page_link remaining) s.links;
    }

-- The body of `if (page)` in `alloc`.
unfoldable pub take_block : Ptr → ℕ → Pmm → Pmm
unfolding split_block list_del
take_block le n s =
    let page = le2page le in
    let t = if ltb n (s.pages page).property then split_block le n s else s in
    record {
      links = list_del le t.links;
      nr_free = u32 (t.nr_free + 2 ^ 32 - n);
      pages = update page clear_page_reserved t.pages;
    }

unfoldable pub alloc : ℕ → ℕ → Pmm → Option (Option Page × Pmm)
alloc fuel n s = if ltb s.nr_free n then some (none, s) else elim (find_block fuel n free_list s) [
  | none ↦ none
  | some none ↦ some (none, s)
  | some (some le) ↦ some (some (le2page le), take_block le n s)
]

-- The first loop of `free`.
unfoldable pub clear_flags : Page → ℕ → Pages → Pages
clear_flags base zero pages = pages
clear_flags base (suc n) pages =
    clear_flags (base + 1) n (update base (λ d. record d { flags = 0 }) pages)

-- The block at `base` takes in the next one, at `p`.
unfoldable pub merge_next : Page → Page → Ptr → Pmm → Pmm
unfolding list_del
merge_next base p le s =
    let size = u32 ((s.pages base).property + (s.pages p).property) in
    record s {
      pages = update p clear_page_reserved (update base (set_property size) s.pages);
      links = list_del le s.links;
    }

-- The block at `p` takes in the one at `base`.
unfoldable pub merge_prev : Page → Page → Ptr → Pmm → Pmm
unfolding list_del
merge_prev base p le s =
    let size = u32 ((s.pages p).property + (s.pages base).property) in
    record s {
      pages = update base clear_page_reserved (update p (set_property size) s.pages);
      links = list_del le s.links;
    }

-- The second loop of `free`, with its variables `base`, `le` and `prev`.
unfoldable pub free_loop : ℕ → Page → Ptr → Ptr → Pmm → Option (Page × Ptr × Pmm)
free_loop zero base le prev s = none
free_loop (suc fuel) base le prev s =
    let le' = list_next le s.links in
    let p = le2page le' in
    let next = free_loop fuel base le' prev (merge_next base p le' s) in
    let back = free_loop fuel p le' prev (merge_prev base p le' s) in
    let keep = free_loop fuel base le' le' s in
    if le' == free_list
    then some (base, prev, s)
    else if base + (s.pages base).property == p
    then next
    else if p + (s.pages p).property == base
    then back
    else keep

unfoldable pub free : ℕ → Page → ℕ → Pmm → Option Pmm
free fuel base n s =
    let pages = clear_flags base n s.pages in
    let marked = update base set_page_reserved (update base (set_property n) pages) in
    elim (free_loop fuel base free_list free_list (record s { pages = marked })) [
      | none ↦ none
      | some (base', prev, t) ↦ some (record t {
        nr_free = u32 (t.nr_free + n);
        links = list_add prev (page_link base') t.links;
      })
    ]

unfoldable pub nr_free_pages : Pmm → ℕ
nr_free_pages s = s.nr_free

-- The loop of `check`: the sum of the sizes, or `some none` where `assert(PAGE_RESERVED(p))` fails.
unfoldable pub count_free : ℕ → Ptr → ℕ → Pmm → Option (Option ℕ)
unfolding list_next
count_free zero le total s = none
count_free (suc fuel) le total s =
    let le' = list_next le s.links in
    let p = s.pages (le2page le') in
    let rest = count_free fuel le' (u32 (total + p.property)) s in
    if le' == free_list then some (some total) else if page_reserved p then rest else some none

-- The assertions of `check` on its trial allocation.
unfoldable pub check_trial : Option (Option Page × Pmm) → Option (Bool × Pmm)
check_trial none = none
check_trial (some (none, t)) = some (false, t)
check_trial (some (some p, t)) = some (not (page_reserved (t.pages p)), t)

-- `check`: whether all its assertions pass, and the state that it leaves.
unfoldable pub check : ℕ → Pmm → Option (Bool × Pmm)
check fuel s = elim (count_free fuel free_list 0 s) [
  | none ↦ none
  | some none ↦ some (false, s)
  | some (some total) ↦ if total == s.nr_free then check_trial (alloc fuel 5 s) else some (false, s)
]
