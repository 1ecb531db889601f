-- ===== src/Mm/FirstFit/Alloc.antt =====
-- `alloc` of kern/mm/pmm_firstfit.c against the abstract first fit.
use zonix.Prelude.{
  ltb, length, ℕ, ◌-◌, ◌≤◌, ◌<◌, ◌≡◌, refl, ap, ◌∙◌, subst, inl, inr, false, Option, none, some, [],
  ◌∷◌, ◌++◌, arith,
}
use zonix.Links.Ops.{next-Ring}
use zonix.Mm.Page.{Page, free_list, page_link, page_reserved}
use zonix.Mm.FirstFit.{Pmm, find_block, take_block, alloc}
use zonix.Mm.FirstFit.Blocks.{Blocks, entries, first_fit}
use zonix.Mm.FirstFit.Coverage.{first_fit-total}
use zonix.Mm.FirstFit.Invariant.{IsFree}
use zonix.Mm.FirstFit.Found.{found, find_block-found, rest_of, Fit-cases}
use zonix.Mm.FirstFit.Taken.{p, take_block-IsFree, take_block-reserved}

-- The page that a first fit gives, and the blocks that it leaves.
abbrev pub taken : Option (Page × Blocks) → Option Page
taken none = none
taken (some (p, r)) = some p

abbrev pub left : Blocks → Option (Page × Blocks) → Blocks
left bs none = bs
left bs (some (p, r)) = r

-- On a page that is handed out the mark is gone; if none is, nothing has changed.
abbrev pub Settled : Pmm → Pmm → Option (Page × Blocks) → Type 0
Settled s t none = t ≡ s
Settled s t (some (p, r)) = page_reserved (t.pages p) ≡ false

abbrev pub Allocated : ℕ → ℕ → Pmm → Blocks → Option (Page × Blocks) → Type 0
Allocated fuel n s bs r =
    (t : Pmm) × (alloc fuel n s ≡ some (taken r, t)) × IsFree t (left bs r) × Settled s t r

alloc-none :
    (fuel n : ℕ) (s : Pmm)
    → find_block fuel n free_list s ≡ some none
    → alloc fuel n s ≡ some (none, s)
unfolding alloc
alloc-none fuel n s e = ground arith

alloc-some :
    (fuel n : ℕ) (s : Pmm) (p : Page)
    → n ≤ s.nr_free
    → find_block fuel n free_list s ≡ some (some (page_link p))
    → alloc fuel n s ≡ some (some p, take_block (page_link p) n s)
unfolding alloc
alloc-some fuel n s p l e =
    let here : page_link p - 3 ≡ p = omega arith in
    let enough : ltb s.nr_free n ≡ false = ground arith in rw (enough, e, here)

alloc_found :
    (fuel n : ℕ) (s : Pmm) (bs : Blocks)
    → IsFree s bs
    → 0 < n
    → length bs < fuel
    → find_block fuel n free_list s ≡ some (found n bs)
    → Allocated fuel n s bs (first_fit n bs)
unfolding alloc
alloc_found fuel n s bs inv pos f e = elim (Fit-cases n bs) [
  | inl (e₁, e₂) ↦ rw e₂ (s, alloc-none fuel n s (e ∙ ap some e₁), inv, refl)
  | inr r ↦
      let whole : IsFree s (r.before ++ r.here ∷ r.after) = rw r.whole at inv in
      let fit =
        subst (λ c. first_fit n c ≡ some (r.here.start, r.before ++ rest_of n r.here r.after))
          r.whole r.result in
      rw r.result (
        take_block (page_link r.here.start) n s,
        alloc-some fuel n s r.here.start (omega (arith, first_fit-total n bs r.result, inv.counted))
            (e ∙ ap some r.entry),
        take_block-IsFree s n r.before r.here r.after whole pos r.large fit,
        take_block-reserved s n r.before r.here r.after whole pos r.large,
      )
]

-- `alloc` in a state that stands for the blocks `bs`, given more fuel than there are blocks and a
-- positive size, ends: it hands out the page of the first fit and leaves a state that stands for
-- the blocks that the first fit leaves, with the mark of the page taken off. Where nothing fits it
-- hands out no page and changes nothing.
pub alloc-first_fit :
    (fuel n : ℕ) (s : Pmm) (bs : Blocks)
    → IsFree s bs
    → 0 < n
    → length bs < fuel
    → Allocated fuel n s bs (first_fit n bs)
alloc-first_fit fuel n s bs inv pos f = alloc_found fuel n s bs inv pos f (
    find_block-found fuel n s free_list [] bs inv.ring
      (next-Ring s.links free_list [] (entries bs) inv.ring) inv.described f)
