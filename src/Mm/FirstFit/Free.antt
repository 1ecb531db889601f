-- ===== src/Mm/FirstFit/Free.antt =====
-- `free` of kern/mm/pmm_firstfit.c against the abstract release.
use zonix.Prelude.{
  length, ℕ, zero, suc, ◌+◌, ◌^◌, ◌≤◌, ◌<◌, ◌≡◌, refl, ◌∙◌, ◌⊎◌, some, [], ◌∷◌, append-nil, arith,
}
use zonix.Links.{list_add}
use zonix.Links.Ring.{last_of}
use zonix.Links.Ops.{Ring-list_add, next-Ring}
use zonix.Mm.Page.{Page, Pages, free_list, page_link, update, set_page_reserved}
use zonix.Mm.FirstFit.{Pmm, u32, set_property, clear_flags, free}
use zonix.Mm.FirstFit.Blocks.{Blocks, entries, total, SepAll, Apart, merge, release}
use zonix.Mm.FirstFit.Coverage.{release-total}
use zonix.Mm.FirstFit.Merging.{release-Apart}
use zonix.Mm.FirstFit.Invariant.{
  Described, IsFree, Outside, Described-update, Described-append, not-mem-entries, entries-append,
  Outside-SepAll,
}
use zonix.Mm.FirstFit.Pass.{Pass}
use zonix.Mm.FirstFit.Rounds.{Merged, free_loop-merge}

clear_flags-at :
    (base n : ℕ) (pages : Pages) (i : Page)
    → (i < base) ⊎ (base + n ≤ i)
    → clear_flags base n pages i ≡ pages i
unfolding clear_flags
clear_flags-at base zero pages i h = refl
clear_flags-at base (suc n) pages i h = clear_flags-at (base + 1) n _ i (omega arith) ∙ ground arith

clear_flags-Described :
    (base n : ℕ) (pages : Pages) (bs : Blocks)
    → 0 < n
    → Apart 0 bs
    → SepAll 0 base n bs
    → Described pages bs
    → Described (clear_flags base n pages) bs
clear_flags-Described base n pages [] pos a s d = tt
clear_flags-Described base n pages (b ∷ bs) pos a s d =
    let same = clear_flags-at base n pages b.start (omega arith) in
    (rw same d.0, rw same d.1, clear_flags-Described base n pages bs pos a.2 s.1 d.2)

-- The state in which `free` enters its loop.
abbrev marked_at : Page → ℕ → Pmm → Pmm
marked_at base n s = record s {
  pages = update base set_page_reserved (update base (set_property n) (clear_flags base n s.pages));
}

module _ (fuel base n : ℕ) (s : Pmm) (bs : Blocks) (inv : IsFree s bs) (pos : 0 < n)
    (out : SepAll 0 base n bs) (fits : n + total bs < 2 ^ 32) (enough : length bs < fuel) where
  outside : Outside base bs
  outside = Outside-SepAll base base n bs inv.apart (omega arith) (omega arith) out

  start-Pass : Pass (marked_at base n s) base n [] bs
  start-Pass = record {
    ring = inv.ring;
    passed_described = tt;
    rest_described =
        Described-update base set_page_reserved
          (update base (set_property n) (clear_flags base n s.pages)) bs outside
          (Described-update base (set_property n) (clear_flags base n s.pages) bs outside
            (clear_flags-Described base n s.pages bs pos inv.apart out inv.described));
    size = ground arith;
    marked = ground arith;
    outside_passed = tt;
    outside_rest = outside;
    fits = fits;
  }

  merged : Merged fuel base n free_list free_list (marked_at base n s) [] bs
  merged =
      free_loop-merge fuel base n free_list free_list (marked_at base n s) [] bs start-Pass
        (next-Ring s.links free_list [] (entries bs) inv.ring) refl enough

  -- The state that `free` leaves.
  freed : Pmm
  freed = record merged.end {
    nr_free = u32 (merged.end.nr_free + n);
    links =
        list_add (last_of free_list (entries (merge base n bs).1))
          (page_link (merge base n bs).0.start) merged.end.links;
  }

  freed-IsFree : IsFree freed (release base n bs)
  unfolding freed release
  freed-IsFree = record {
    ring = rw entries-append (
        Ring-list_add merged.end.links free_list (page_link (merge base n bs).0.start)
          (entries (merge base n bs).1) [] merged.final.ring
          (rw append-nil (
            not-mem-entries (merge base n bs).0.start (merge base n bs).1
              merged.final.outside_passed)));
    described =
        Described-append merged.end.pages (merge base n bs).1 ((merge base n bs).0 ∷ [])
          merged.final.passed_described (merged.final.size, merged.final.marked, tt);
    counted = omega (arith, merged.same_count, inv.counted, release-total base n bs, fits);
    fits = omega (arith, release-total base n bs, fits);
    apart = release-Apart 0 base n bs (omega arith) pos out inv.apart;
  }

-- `free` of `n` pages from `base`, with `n` not 0 and none of the pages free, in a state that stands for the
-- blocks `bs`, with fewer than 2 ^ 32 pages free afterwards and more fuel than there are blocks, ends in a state that stands for the release of the range.
pub free-release :
    (fuel base n : ℕ) (s : Pmm) (bs : Blocks)
    → IsFree s bs
    → 0 < n
    → SepAll 0 base n bs
    → n + total bs < 2 ^ 32
    → length bs < fuel
    → (t : Pmm) × (free fuel base n s ≡ some t) × IsFree t (release base n bs)
unfolding free freed
free-release fuel base n s bs inv pos out fits enough =
    let run = merged fuel base n s bs inv pos out fits enough in
    (
      freed fuel base n s bs inv pos out fits enough,
      rw (run.runs, free),
      freed-IsFree fuel base n s bs inv pos out fits enough,
    )
