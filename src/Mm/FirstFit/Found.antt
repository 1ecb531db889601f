-- ===== src/Mm/FirstFit/Found.antt =====
-- `find_block`, the search loop of `alloc` in kern/mm/pmm_firstfit.c.
use zonix.Prelude.{
  ltb, leb, if◌then◌else◌, Bool-cases, length, ℕ, zero, suc, ◌+◌, ◌-◌, ◌≤◌, ◌<◌, ◌≡◌, refl, ap, ◌⊎◌,
  inl, inr, Option, none, some, List, [], ◌∷◌, ◌++◌, append_assoc, arith,
}
use zonix.Links.{Ptr, list_next}
use zonix.Links.Ring.{Ring, first_of_or}
use zonix.Links.Ops.{next-Ring_entry}
use zonix.Mm.Page.{free_list, page_link}
use zonix.Mm.FirstFit.{Pmm, find_block}
use zonix.Mm.FirstFit.Blocks.{Block, block, Blocks, entries, first_fit}
use zonix.Mm.FirstFit.Invariant.{Described}

-- The entry of the first block that is large enough.
pub found : ℕ → Blocks → Option Ptr
found n [] = none
found n (b ∷ bs) = if leb n b.size then some (page_link b.start) else found n bs

-- With more fuel than blocks the search ends, at the first block that is large enough.
pub find_block-found :
    (fuel n : ℕ) (s : Pmm) (le : Ptr) (xs : List Ptr) (bs : Blocks)
    → Ring s.links free_list (xs ++ entries bs)
    → list_next le s.links ≡ first_of_or (entries bs) free_list
    → Described s.pages bs
    → length bs < fuel
    → find_block fuel n le s ≡ some (found n bs)
unfolding find_block found
find_block-found zero n s le xs bs r e d f = absurd (omega arith)
find_block-found (suc fuel) n s le xs [] r e d f = rw e
find_block-found (suc fuel) n s le xs (b ∷ bs) r e d f =
    let at = append_assoc xs (page_link b.start ∷ []) (entries bs) in
    let rest =
      find_block-found fuel n s (page_link b.start) (xs ++ page_link b.start ∷ []) bs (rw at r)
        (next-Ring_entry s.links free_list (page_link b.start) xs (entries bs) r) d.2
        (omega arith) in
    let here : page_link b.start - 3 ≡ b.start = omega arith in
    rw (e, here, d.0) (ground (arith, rest))

-- What is left of the block that gives `n` pages.
unfoldable pub rest_of : ℕ → Block → Blocks → Blocks
rest_of n b bs = if ltb n b.size then block (b.start + n) (b.size - n) ∷ bs else bs

-- Where the first fit is.
pub record Fit (n : ℕ) (bs : Blocks) : Type 0 where
  pub before : Blocks
  pub here : Block
  pub after : Blocks
  pub whole : bs ≡ before ++ here ∷ after
  pub large : n ≤ here.size
  pub entry : found n bs ≡ some (page_link here.start)
  pub result : first_fit n bs ≡ some (here.start, before ++ rest_of n here after)

pub Fit-cases : (n : ℕ) (bs : Blocks) → ((found n bs ≡ none) × (first_fit n bs ≡ none)) ⊎ Fit n bs
unfolding found first_fit rest_of
Fit-cases n [] = inl (refl, refl)
Fit-cases n (b ∷ bs) = elim (Bool-cases (leb n b.size)) [
  | inl yes_ ↦ inr (record {
    before = [];
    here = b;
    after = bs;
    whole = refl;
    large = ground arith;
    entry = rw yes_;
    result = rw yes_;
  })
  | inr no_ ↦ elim (Fit-cases n bs) [
    | inl (e, f) ↦ inl (rw no_ e, rw (no_, f))
    | inr r ↦ inr (record {
      before = b ∷ r.before;
      here = r.here;
      after = r.after;
      whole = ap (λ x. b ∷ x) r.whole;
      large = r.large;
      entry = rw no_ r.entry;
      result = rw (no_, r.result);
    })
  ]
]
