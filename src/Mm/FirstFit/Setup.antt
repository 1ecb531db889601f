-- ===== src/Mm/FirstFit/Setup.antt =====
-- The first-fit manager of kern/mm/pmm_firstfit.c is set up: `init` and `init_memmap`.
use zonix.Prelude.{ℕ, zero, suc, ◌+◌, ◌^◌, ◌≤◌, ◌<◌, ◌≡◌, refl, ◌∙◌, ◌⊎◌, [], ◌∷◌, ◌++◌, arith}
use zonix.Links.Ops.{Ring-list_init, Ring-list_add_before}
use zonix.Mm.Page.{Page, Pages, free_list, page_link, update, set_page_reserved}
use zonix.Mm.FirstFit.{Pmm, set_property, init, clear_pages, init_memmap}
use zonix.Mm.FirstFit.Blocks.{block, Blocks, entries, total, SepAll, Apart}
use zonix.Mm.FirstFit.Coverage.{total-append}
use zonix.Mm.FirstFit.Merging.{Apart-snoc}
use zonix.Mm.FirstFit.Invariant.{
  Described, IsFree, Described-update, Described-append, not-mem-entries, entries-append,
  Outside-SepAll,
}

-- `init` leaves an empty list of blocks.
pub init-IsFree : (s : Pmm) → IsFree (init s) []
unfolding init
init-IsFree s = record {
  ring = Ring-list_init s.links free_list;
  described = tt;
  counted = refl;
  fits = omega arith;
  apart = tt;
}

clear_pages-at :
    (base n : ℕ) (pages : Pages) (i : Page)
    → (i < base) ⊎ (base + n ≤ i)
    → clear_pages base n pages i ≡ pages i
unfolding clear_pages
clear_pages-at base zero pages i h = refl
clear_pages-at base (suc n) pages i h = clear_pages-at (base + 1) n _ i (omega arith) ∙ ground arith

clear_pages-Described :
    (base n : ℕ) (pages : Pages) (bs : Blocks)
    → 0 < n
    → Apart 0 bs
    → SepAll 0 base n bs
    → Described pages bs
    → Described (clear_pages base n pages) bs
clear_pages-Described base n pages [] pos a s d = tt
clear_pages-Described base n pages (b ∷ bs) pos a s d =
    let same = clear_pages-at base n pages b.start (omega arith) in
    (rw same d.0, rw same d.1, clear_pages-Described base n pages bs pos a.2 s.1 d.2)

-- `init_memmap` of `n` pages, none of them free, appends them as one block.
pub init_memmap-IsFree :
    (base n : ℕ) (s : Pmm) (bs : Blocks)
    → IsFree s bs
    → 0 < n
    → SepAll 0 base n bs
    → n + total bs < 2 ^ 32
    → IsFree (init_memmap base n s) (bs ++ block base n ∷ [])
unfolding init_memmap
init_memmap-IsFree base n s bs inv pos out fits =
    let outside = Outside-SepAll base base n bs inv.apart (omega arith) (omega arith) out in
    let cleared = clear_pages base n s.pages in
    let sized = update base (set_property n) cleared in
    record {
      ring = rw entries-append (
          Ring-list_add_before s.links free_list (page_link base) (entries bs) inv.ring
            (not-mem-entries base bs outside));
      described =
          Described-append (update base set_page_reserved sized) bs (block base n ∷ [])
            (Described-update base set_page_reserved sized bs outside (
              Described-update base (set_property n) cleared bs outside
                (clear_pages-Described base n s.pages bs pos inv.apart out inv.described)))
            (ground arith, ground arith, tt);
      counted = omega (arith, inv.counted, total-append bs (block base n ∷ []));
      fits = omega (arith, total-append bs (block base n ∷ []));
      apart = Apart-snoc 0 bs (block base n) pos out inv.apart;
    }
