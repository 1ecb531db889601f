-- ===== src/Mm/FirstFit/Clients.antt =====
-- The first-fit manager of kern/mm/pmm_firstfit.c as its clients see it: which pages are free.
use zonix.Prelude.{
  Option-cases, length, ℕ, ◌+◌, ◌≤◌, ◌<◌, ◌≡◌, refl, sym, ap, ◌∙◌, subst, ◌↔◌, inl, inr, Option,
  none, some, [], ◌∷◌, arith,
}
use zonix.Mm.Page.{Page}
use zonix.Mm.FirstFit.{Pmm, alloc, free}
use zonix.Mm.FirstFit.Blocks.{Block, Blocks, inside, count, Sep, SepAll, Apart, first_fit, release}
use zonix.Mm.FirstFit.Coverage.{first_fit-count, first_fit-total, release-count, release-total}
use zonix.Mm.FirstFit.Merging.{SepAll-part}
use zonix.Mm.FirstFit.Invariant.{IsFree}
use zonix.Mm.FirstFit.Alloc.{taken, left, Settled, alloc-first_fit}
use zonix.Mm.FirstFit.Free.{free-release}

-- What holds of the pages that a first fit gives, if it gives some.
abbrev Given : (Page → Blocks → Type 0) → Option (Page × Blocks) → Type 0
Given P none = Unit {0}
Given P (some (p, r)) = P p r

first_fit-Sep :
    (n : ℕ) (b : Block) (bs : Blocks)
    → SepAll 0 b.start b.size bs
    → Given (λ p r. Sep 0 p n b) (first_fit n bs)
unfolding first_fit
first_fit-Sep n b [] s = tt
first_fit-Sep n b (c ∷ bs) s = elim (Option-cases (first_fit n bs)) [
  | inl none_ ↦ ground arith
  | inr ((q, t), some_) ↦ ground (arith, first_fit-Sep n b bs)
]

first_fit-SepAll-Given :
    (n : ℕ) (bs : Blocks) → Apart 0 bs → Given (λ p r. SepAll 0 p n r) (first_fit n bs)
unfolding first_fit
first_fit-SepAll-Given n [] a = tt
first_fit-SepAll-Given n (b ∷ bs) a = elim (Option-cases (first_fit n bs)) [
  | inl none_ ↦ ground (arith, SepAll-part 0 b.start b.size b.start n bs)
  | inr ((q, t), some_) ↦ ground (
    arith,
    SepAll-part 0 b.start b.size b.start n bs,
    first_fit-SepAll-Given n bs,
    first_fit-Sep n b bs,
  )
]

length-first_fit : (n : ℕ) (bs : Blocks) → Given (λ p r. length r ≤ length bs) (first_fit n bs)
unfolding first_fit
length-first_fit n [] = tt
length-first_fit n (b ∷ bs) = elim (Option-cases (first_fit n bs)) [
  | inl none_ ↦ ground arith
  | inr ((q, t), some_) ↦ ground (arith, length-first_fit n bs)
]

Option-fst :
    (r : Option (Page × Blocks)) {p : Page} → taken r ≡ some p → (bs : Blocks) × (r ≡ some (p, bs))
Option-fst none e = cc
Option-fst (some (q, bs)) e = (bs, ground arith)

-- What `alloc` hands out, read back from its result.
alloc_inv :
    (fuel n : ℕ) (s t : Pmm) (bs : Blocks) (p : Page)
    → IsFree s bs
    → 0 < n
    → length bs < fuel
    → alloc fuel n s ≡ some (some p, t)
    → (r : Blocks) × (first_fit n bs ≡ some (p, r)) × IsFree t r
alloc_inv fuel n s t bs p inv pos f e =
    let (u, run, left_, rest) = alloc-first_fit fuel n s bs inv pos f in
    let got : taken (first_fit n bs) ≡ some p = ground (arith, run) in
    let (r, fit) = Option-fst (first_fit n bs) got in
    let same : u ≡ t = ground (arith, run) in
    (r, fit, subst (λ x. IsFree x r) same (subst (λ x. IsFree u (left bs x)) fit left_))

-- A page range that `alloc` hands out was free, is free no longer, and no other page changes.
pub alloc-pages :
    (fuel n : ℕ) (s t : Pmm) (bs : Blocks) (p : Page)
    → IsFree s bs
    → 0 < n
    → length bs < fuel
    → alloc fuel n s ≡ some (some p, t)
    → (r : Blocks) × IsFree t r × ((i : Page) → count i bs ≡ inside p n i + count i r)
alloc-pages fuel n s t bs p inv pos f e =
    let (r, fit, left_) = alloc_inv fuel n s t bs p inv pos f e in
    (r, left_, first_fit-count n bs fit)

-- In a state that stands for the blocks `bs`, with more fuel than there are blocks: if `alloc` of `n` pages, not 0,
-- handed out a page, then `free` of them succeeds and restores the set of free pages and its count.
pub free-alloc :
    (fuel n : ℕ) (s t : Pmm) (bs : Blocks) (p : Page)
    → IsFree s bs
    → 0 < n
    → length bs < fuel
    → alloc fuel n s ≡ some (some p, t)
    → (u : Pmm) × (cs : Blocks) × (free fuel p n t ≡ some u)
      × IsFree u cs
      × ((i : Page) → count i cs ≡ count i bs)
      × (u.nr_free ≡ s.nr_free)
free-alloc fuel n s t bs p inv pos f e =
    let (r, fit, left_) = alloc_inv fuel n s t bs p inv pos f e in
    let sum = first_fit-total n bs fit in
    let out : SepAll 0 p n r = rw fit at (first_fit-SepAll-Given n bs inv.apart) in
    let short : length r ≤ length bs = rw fit at (length-first_fit n bs) in
    let (u, run, back) =
      free-release fuel p n t r left_ pos out (omega (arith, sum, inv.fits))
        (omega (arith, short)) in
    (
      u,
      release p n r,
      run,
      back,
      λ i. release-count p n r i ∙ sym (first_fit-count n bs fit i),
      omega (arith, back.counted, inv.counted, release-total p n r, sum),
    )

-- Every block has fewer than `n` pages.
abbrev pub TooSmall : ℕ → Blocks → Type 0
TooSmall n [] = Unit {0}
TooSmall n (b ∷ bs) = (b.size < n) × TooSmall n bs

first_fit-none : (n : ℕ) (bs : Blocks) → first_fit n bs ≡ none → TooSmall n bs
unfolding first_fit
first_fit-none n [] e = tt
first_fit-none n (b ∷ bs) e = elim (Option-cases (first_fit n bs)) [
  | inl none_ ↦ ground (arith, first_fit-none n bs none_)
  | inr ((q, t), some_) ↦ absurd (ground arith)
]

first_fit_small : (n : ℕ) (bs : Blocks) → TooSmall n bs → first_fit n bs ≡ none
unfolding first_fit
first_fit_small n [] s = refl
first_fit_small n (b ∷ bs) s = ground (arith, first_fit_small n bs s.1)

-- `alloc` of a positive size hands out nothing and changes nothing exactly when every free block
-- is too small, however many pages are free in all.
pub alloc-none_iff :
    (fuel n : ℕ) (s : Pmm) (bs : Blocks)
    → IsFree s bs
    → 0 < n
    → length bs < fuel
    → (alloc fuel n s ≡ some (none, s)) ↔ TooSmall n bs
alloc-none_iff fuel n s bs inv pos f =
    let (t, run, after, settled) = alloc-first_fit fuel n s bs inv pos f in
    elim (Option-cases (first_fit n bs)) [
      | inl none_ ↦ (
        λ e. first_fit-none n bs none_,
        λ small.
            run
            ∙ ap (λ x. some (taken x, t)) none_
            ∙ ap (λ x. some (none, x)) (subst (λ x. Settled s t x) none_ settled),
      )
      | inr ((q, r), some_) ↦ (
        λ e. absurd (no_page q t (sym run ∙ e) (ap taken some_)),
        λ small. absurd (no_fit q r some_ (first_fit_small n bs small)),
      )
    ]
  where
    no_page :
        (q : Page) (t : Pmm)
        → ◌≡◌ {A = Option (Option Page × Pmm)} (some (taken (first_fit n bs), t)) (some (none, s))
        → taken (first_fit n bs) ≡ some q
        → ⊥
    no_page q t e k = ground arith

    no_fit : (q : Page) (r : Blocks) → first_fit n bs ≡ some (q, r) → first_fit n bs ≡ none → ⊥
    no_fit q r e k = cc
