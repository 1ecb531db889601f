-- ===== src/Mm/FirstFit/Taken.antt =====
-- `take_block`, what `alloc` of kern/mm/pmm_firstfit.c does with the block it found.
use zonix.Prelude.{
  ltb, Bool-cases, ℕ, ◌+◌, ◌-◌, ◌%◌, ◌^◌, ◌≤◌, ◌<◌, ◌≡◌, inl, inr, false, some, ◌∷◌, ◌++◌, arith,
}
use zonix.Links.{Ptr, list_add, list_del}
use zonix.Links.Ring.{Ring}
use zonix.Links.Ops.{Ring-list_add_entry, Ring-list_del}
use zonix.Mm.Page.{
  Page, PageDesc, Pages, free_list, page_link, update, set_page_reserved, clear_page_reserved,
  page_reserved,
}
use zonix.Mm.FirstFit.{Pmm, take_block, set_property}
use zonix.Mm.FirstFit.Blocks.{Block, block, Blocks, entries, first_fit}
use zonix.Mm.FirstFit.Coverage.{first_fit-total}
use zonix.Mm.FirstFit.Merging.{first_fit-Apart}
use zonix.Mm.FirstFit.Invariant.{
  Described, IsFree, Described-update, Described-append, Described-split, Outside-append,
  not-mem-entries, entries-append, Outside-Apart,
}
use zonix.Mm.FirstFit.Found.{rest_of}

module _ (s : Pmm) (n : ℕ) (before : Blocks) (here : Block) (after : Blocks)
    (inv : IsFree s (before ++ here ∷ after)) (pos : 0 < n) (large : n ≤ here.size) where
  pub p : Page
  p = here.start

  le : Ptr
  le = page_link here.start

  at_page : page_link here.start - 3 ≡ here.start
  at_page = omega arith

  pub ring : Ring s.links free_list (entries before ++ page_link here.start ∷ entries after)
  ring = rw entries-append at inv.ring

  pub size : (s.pages here.start).property ≡ here.size
  size = (Described-split s.pages before (here ∷ after) inv.described).1.0

  -- The block is split: its rest follows it in the list before it is taken out.
  Ring-split :
      n < here.size
      → Ring
          (list_del
            (page_link here.start)
            (list_add (page_link here.start) (page_link (here.start + n)) s.links))
          free_list
          (entries before ++ page_link (here.start + n) ∷ entries after)
  Ring-split lt =
      let (ob, oa) =
        Outside-Apart (here.start + n) before here after inv.apart (omega arith) (omega arith) in
      let fresh =
        not-mem-entries (here.start + n) (before ++ here ∷ after)
          (Outside-append (here.start + n) before (here ∷ after) ob (omega arith, oa)) in
      Ring-list_del _ free_list (page_link here.start) (entries before)
        (page_link (here.start + n) ∷ entries after)
        (Ring-list_add_entry s.links free_list (page_link here.start) (page_link (here.start + n))
          (entries before) (entries after) ring (rw entries-append at fresh))

  take_block-Ring :
      Ring
        (take_block (page_link here.start) n s).links
        free_list
        (entries (before ++ rest_of n here after))
  unfolding take_block rest_of
  take_block-Ring =
      rw (at_page, size, entries-append)
        (elim (Bool-cases (ltb n here.size)) [
          | inl lt ↦ rw lt (Ring-split (ground arith))
          | inr ge ↦ rw ge (
              Ring-list_del s.links free_list (page_link here.start) (entries before)
                (entries after) ring)
        ])

  -- The updates of the descriptors of `p` and of the rest leave those of the other blocks.
  kept_at :
      (q : Page) (f : PageDesc → PageDesc) (pages : Pages)
      → here.start ≤ q
      → q < here.start + here.size
      → Described pages before × Described pages after
      → Described (update q f pages) before × Described (update q f pages) after
  kept_at q f pages l h (d, e) =
      let (ob, oa) = Outside-Apart q before here after inv.apart l h in
      (Described-update q f pages before ob d, Described-update q f pages after oa e)

  others : Described s.pages before × Described s.pages after
  others = let (d, e) = Described-split s.pages before (here ∷ after) inv.described in (d, e.2)

  take_block-Described :
      Described (take_block (page_link here.start) n s).pages (before ++ rest_of n here after)
  unfolding take_block rest_of
  take_block-Described =
      rw (at_page, size)
        (elim (Bool-cases (ltb n here.size)) [
          | inl lt ↦ rw lt (
              let in_range : here.start + n < here.start + here.size = ground arith in
              let q = here.start + n in
              let sized = update q (set_property (here.size - n)) s.pages in
              let marked = update q set_page_reserved sized in
              let (d, e) =
                kept_at here.start clear_page_reserved marked (omega arith) (omega arith) (
                  kept_at q set_page_reserved sized (omega arith) in_range (
                    kept_at q (set_property (here.size - n)) s.pages (omega arith) in_range
                      others)) in
              Described-append (update here.start clear_page_reserved marked) before
                (block (here.start + n) (here.size - n) ∷ after) d (ground arith, ground arith, e))
          | inr ge ↦ rw ge (
              let (d, e) =
                kept_at here.start clear_page_reserved s.pages (omega arith) (omega arith) others in
              Described-append (update here.start clear_page_reserved s.pages) before after d e)
        ])

  take_block-nr_free :
      (take_block (page_link here.start) n s).nr_free ≡ (s.nr_free + 2 ^ 32 - n) % 2 ^ 32
  unfolding take_block
  take_block-nr_free =
      rw (at_page, size) (elim (Bool-cases (ltb n here.size)) [ inl lt ↦ rw lt | inr ge ↦ rw ge ])

  pub take_block-IsFree :
      first_fit n (before ++ here ∷ after) ≡ some (here.start, before ++ rest_of n here after)
      → IsFree (take_block (page_link here.start) n s) (before ++ rest_of n here after)
  take_block-IsFree fit = record {
    ring = take_block-Ring;
    described = take_block-Described;
    counted = omega (
      arith,
      take_block-nr_free,
      inv.counted,
      inv.fits,
      first_fit-total n (before ++ here ∷ after) fit,
    );
    fits = omega (arith, first_fit-total n (before ++ here ∷ after) fit, inv.fits);
    apart = first_fit-Apart 0 n (before ++ here ∷ after) inv.apart fit;
  }

  -- The block that is handed out is no longer marked.
  pub take_block-reserved :
      page_reserved ((take_block (page_link here.start) n s).pages here.start) ≡ false
  unfolding take_block
  take_block-reserved = rw at_page (ground arith)
