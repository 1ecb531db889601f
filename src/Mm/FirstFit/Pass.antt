-- ===== src/Mm/FirstFit/Pass.antt =====
-- One round of the loop of `free` of kern/mm/pmm_firstfit.c.
use zonix.Prelude.{
  ◌==◌, ◌∉◌, has-append, Distinct-remove, ℕ, suc, ◌+◌, ◌-◌, ◌%◌, ◌^◌, ◌<◌, ◌≡◌, refl, ◌≢◌, true,
  false, [], ◌∷◌, ◌++◌, append_assoc, arith,
}
use zonix.Links.{Ptr, list_next, list_del}
use zonix.Links.Ring.{Ring}
use zonix.Links.Ops.{Ring-list_del}
use zonix.Mm.Page.{Page, Pages, free_list, page_link, update, clear_page_reserved}
use zonix.Mm.FirstFit.{Pmm, u32, set_property, merge_next, merge_prev, free_loop}
use zonix.Mm.FirstFit.Blocks.{Block, Blocks, entries, total}
use zonix.Mm.FirstFit.Invariant.{
  Described, Outside, Described-update, Described-append, Outside-append, entries-append,
}

-- The loop of `free` has passed the blocks `passed` and has `rest` before it. The block of `n` pages
-- at `base` is in neither.
pub record Pass (s : Pmm) (base n : ℕ) (passed rest : Blocks) : Type 0 where
  pub ring : Ring s.links free_list (entries passed ++ entries rest)
  pub passed_described : Described s.pages passed
  pub rest_described : Described s.pages rest
  pub size : (s.pages base).property ≡ n
  pub marked : (s.pages base).flags % 2 ≡ 1
  pub outside_passed : Outside base passed
  pub outside_rest : Outside base rest
  pub fits : n + total rest < 2 ^ 32

Outside-not-mem : (q : Page) (bs : Blocks) → page_link q ∉ entries bs → Outside q bs
Outside-not-mem q [] o = tt
Outside-not-mem q (b ∷ bs) o = (ground arith, Outside-not-mem q bs (ground arith))

-- A merge writes the descriptors of the two blocks that become one.
merged-Described :
    (q r : Page) (m : ℕ) (pages : Pages) (bs : Blocks)
    → Outside q bs
    → Outside r bs
    → Described pages bs
    → Described (update q clear_page_reserved (update r (set_property m) pages)) bs
merged-Described q r m pages bs oq or d =
    Described-update q clear_page_reserved (update r (set_property m) pages) bs oq
      (Described-update r (set_property m) pages bs or d)

module _ (s : Pmm) (base n : ℕ) (passed : Blocks) (b : Block) (rest : Blocks)
    (pass : Pass s base n passed (b ∷ rest)) where
  -- The block that the loop has reached is none of the others.
  Outside-here : Outside b.start passed × Outside b.start rest
  Outside-here =
      let (kept, gone) =
        Distinct-remove (page_link b.start) (entries passed) (entries rest) pass.ring.distinct in
      (
        Outside-not-mem b.start passed
            (ground (arith, gone, has-append (page_link b.start) (entries passed) (entries rest))),
        Outside-not-mem b.start rest
            (ground (arith, gone, has-append (page_link b.start) (entries passed) (entries rest))),
      )

  pub merge_next-Pass :
      Pass (merge_next base b.start (page_link b.start) s) base (n + b.size) passed rest
  unfolding merge_next
  merge_next-Pass = record {
    ring =
        Ring-list_del s.links free_list (page_link b.start) (entries passed) (entries rest)
          pass.ring;
    passed_described =
        merged-Described b.start base (u32 ((s.pages base).property + (s.pages b.start).property))
          s.pages passed Outside-here.0 pass.outside_passed pass.passed_described;
    rest_described =
        merged-Described b.start base (u32 ((s.pages base).property + (s.pages b.start).property))
          s.pages rest Outside-here.1 pass.outside_rest.1 pass.rest_described.2;
    size = ground (arith, pass.size, pass.rest_described.0, pass.fits, pass.outside_rest.0);
    marked = ground (arith, pass.marked, pass.outside_rest.0);
    outside_passed = pass.outside_passed;
    outside_rest = pass.outside_rest.1;
    fits = omega (arith, pass.fits);
  }

  pub merge_prev-Pass :
      Pass (merge_prev base b.start (page_link b.start) s) b.start (b.size + n) passed rest
  unfolding merge_prev
  merge_prev-Pass = record {
    ring =
        Ring-list_del s.links free_list (page_link b.start) (entries passed) (entries rest)
          pass.ring;
    passed_described =
        merged-Described base b.start (u32 ((s.pages b.start).property + (s.pages base).property))
          s.pages passed pass.outside_passed Outside-here.0 pass.passed_described;
    rest_described =
        merged-Described base b.start (u32 ((s.pages b.start).property + (s.pages base).property))
          s.pages rest pass.outside_rest.1 Outside-here.1 pass.rest_described.2;
    size = ground (arith, pass.size, pass.rest_described.0, pass.fits, pass.outside_rest.0);
    marked = ground (arith, pass.rest_described.1, pass.outside_rest.0);
    outside_passed = Outside-here.0;
    outside_rest = Outside-here.1;
    fits = omega (arith, pass.fits);
  }

  pub keep-Pass : Pass s base n (passed ++ b ∷ []) rest
  keep-Pass = record {
    ring =
        rw (entries-append passed (b ∷ []), append_assoc (entries passed) (page_link b.start ∷ []))
          pass.ring;
    passed_described =
        Described-append s.pages passed (b ∷ []) pass.passed_described
          (pass.rest_described.0, pass.rest_described.1, tt);
    rest_described = pass.rest_described.2;
    size = pass.size;
    marked = pass.marked;
    outside_passed =
        Outside-append base passed (b ∷ []) pass.outside_passed (pass.outside_rest.0, tt);
    outside_rest = pass.outside_rest.1;
    fits = omega (arith, pass.fits);
  }

-- One round of the loop at the entry of the page `p`, on each of its branches.
module _ (fuel base : ℕ) (le prev : Ptr) (s : Pmm) (p : Page)
    (reached : list_next le s.links ≡ page_link p) where
  pub free_loop_next :
      base + (s.pages base).property ≡ p
      → free_loop (suc fuel) base le prev s
        ≡ free_loop fuel base (page_link p) prev (merge_next base p (page_link p) s)
  unfolding free_loop
  free_loop_next joins =
      let here : page_link p - 3 ≡ p = omega arith in
      let inner : (page_link p == free_list) ≡ false = ground arith in
      let test : (base + (s.pages base).property == p) ≡ true = ground arith in
      rw (reached, here, inner, test)

  pub free_loop_prev :
      base + (s.pages base).property ≢ p
      → p + (s.pages p).property ≡ base
      → free_loop (suc fuel) base le prev s
        ≡ free_loop fuel p (page_link p) prev (merge_prev base p (page_link p) s)
  unfolding free_loop
  free_loop_prev apart joins =
      let here : page_link p - 3 ≡ p = omega arith in
      let inner : (page_link p == free_list) ≡ false = ground arith in
      let test : (base + (s.pages base).property == p) ≡ false = ground arith in
      let test' : (p + (s.pages p).property == base) ≡ true = ground arith in
      rw (reached, here, inner, test, test')

  pub free_loop_keep :
      base + (s.pages base).property ≢ p
      → p + (s.pages p).property ≢ base
      → free_loop (suc fuel) base le prev s ≡ free_loop fuel base (page_link p) (page_link p) s
  unfolding free_loop
  free_loop_keep apart apart' =
      let here : page_link p - 3 ≡ p = omega arith in
      let inner : (page_link p == free_list) ≡ false = ground arith in
      let test : (base + (s.pages base).property == p) ≡ false = ground arith in
      let test' : (p + (s.pages p).property == base) ≡ false = ground arith in
      rw (reached, here, inner, test, test')

pub merge_next-links :
    (q p : Page) (s : Pmm) → (merge_next q p (page_link p) s).links ≡ list_del (page_link p) s.links
unfolding merge_next
merge_next-links q p s = refl

pub merge_prev-links :
    (q p : Page) (s : Pmm) → (merge_prev q p (page_link p) s).links ≡ list_del (page_link p) s.links
unfolding merge_prev
merge_prev-links q p s = refl

pub merge_next-count : (q p : Page) (s : Pmm) → (merge_next q p (page_link p) s).nr_free ≡ s.nr_free
unfolding merge_next
merge_next-count q p s = refl

pub merge_prev-count : (q p : Page) (s : Pmm) → (merge_prev q p (page_link p) s).nr_free ≡ s.nr_free
unfolding merge_prev
merge_prev-count q p s = refl
