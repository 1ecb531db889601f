-- ===== src/Mm/FirstFit/OnePage.antt =====
-- One page from the first-fit manager of kern/mm/pmm_firstfit.c.
use zonix.Prelude.{
  ltb, if◌then◌else◌, length, ℕ, ◌+◌, ◌-◌, ◌≤◌, ◌<◌, ◌≡◌, refl, ap, ◌∙◌, subst, ◌≢◌, some, [], ◌∷◌,
  arith,
}
use zonix.Mm.Page.{Page}
use zonix.Mm.FirstFit.{Pmm, alloc}
use zonix.Mm.FirstFit.Blocks.{block, Block, Blocks, inside, count, total, SepAll, first_fit}
use zonix.Mm.FirstFit.Coverage.{first_fit-count, first_fit-total}
use zonix.Mm.FirstFit.Invariant.{IsFree}
use zonix.Mm.FirstFit.Alloc.{taken, left, alloc-first_fit}

-- The first page of the first block.
abbrev rest_after : Block → Blocks → Blocks
rest_after b bs = if ltb 1 b.size then block (b.start + 1) (b.size - 1) ∷ bs else bs

count_of_SepAll : (k p m q : ℕ) (bs : Blocks) → SepAll k p m bs → p ≤ q → q < p + m → count q bs ≡ 0
unfolding inside
count_of_SepAll k p m q [] s a b = refl
count_of_SepAll k p m q (b ∷ bs) s a h = ground (arith, count_of_SepAll k p m q bs s.1)

-- What a page that was taken leaves.
pub record Taken (fuel : ℕ) (s : Pmm) (bs : Blocks) : Type 0 where
  pub page : Page
  pub final : Pmm
  pub rest : Blocks
  pub runs : alloc fuel 1 s ≡ some (some page, final)
  pub still_free : IsFree final rest
  pub was_free : count page bs ≢ 0
  pub not_free : count page rest ≡ 0
  pub others : (i : Page) → count i rest ≤ count i bs
  pub fewer : total rest + 1 ≡ total bs
  pub shorter : length rest ≤ length bs

-- If a page is free, one can be taken.
pub take_page :
    (fuel : ℕ) (s : Pmm) (bs : Blocks)
    → IsFree s bs
    → 0 < total bs
    → length bs < fuel
    → Taken fuel s bs
unfolding first_fit inside
take_page fuel s [] inv some_free enough = absurd (omega arith)
take_page fuel s (b ∷ bs) inv some_free enough =
    let apart = inv.apart in
    let fit : first_fit 1 (b ∷ bs) ≡ some (b.start, rest_after b bs) = ground arith in
    let (t, run, after, settled) = alloc-first_fit fuel 1 s (b ∷ bs) inv (omega arith) enough in
    let gone = count_of_SepAll 0 b.start b.size b.start bs apart.1 (omega arith) (omega arith) in
    let counts = λ (i : Page). first_fit-count 1 (b ∷ bs) fit i in
    record {
      page = b.start;
      final = t;
      rest = rest_after b bs;
      runs = run ∙ ap (λ r. some (taken r, t)) fit;
      still_free = subst (λ r. IsFree t (left (b ∷ bs) r)) fit after;
      was_free = λ e. ground arith;
      not_free = ground arith;
      others = λ i. omega (arith, counts i);
      fewer = omega (arith, first_fit-total 1 (b ∷ bs) fit);
      shorter = ground arith;
    }
