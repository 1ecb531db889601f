-- ===== src/Mm/FirstFit/OneByOne.antt =====
-- Pages given back one after the other to the first-fit manager of kern/mm/pmm_firstfit.c.
use zonix.Prelude.{length, length-append, ℕ, ◌+◌, ◌^◌, ◌≤◌, ◌<◌, ◌≡◌, ◌≢◌, some, [], ◌∷◌, arith}
use zonix.Mm.Page.{Page}
use zonix.Mm.FirstFit.{Pmm, free}
use zonix.Mm.FirstFit.Blocks.{Blocks, inside, count, total, SepAll, merge, release}
use zonix.Mm.FirstFit.Coverage.{release-count}
use zonix.Mm.FirstFit.Invariant.{IsFree}
use zonix.Mm.FirstFit.Free.{free-release}

-- A page that no block holds is apart from all of them.
SepAll-of_count : (p : Page) (bs : Blocks) → count p bs ≡ 0 → SepAll 0 p 1 bs
unfolding inside
SepAll-of_count p [] h = tt
SepAll-of_count p (b ∷ bs) h = ground (arith, SepAll-of_count p bs)

length-merge : (base n : ℕ) (bs : Blocks) → length (merge base n bs).1 ≤ length bs
unfolding merge
length-merge base n [] = omega arith
length-merge base n (b ∷ bs) = ground (
  arith,
  length-merge base (n + b.size) bs,
  length-merge b.start (b.size + n) bs,
  length-merge base n bs,
)

pub length-release : (base n : ℕ) (bs : Blocks) → length (release base n bs) ≤ length bs + 1
unfolding release
length-release base n bs =
    omega
      (arith, length-merge base n bs, length-append (merge base n bs).1 ((merge base n bs).0 ∷ []))

pub count-release_ne :
    (p q : Page) (bs : Blocks) → p ≢ q → count q bs ≡ 0 → count q (release p 1 bs) ≡ 0
unfolding inside
count-release_ne p q bs ne h = ground (arith, release-count p 1 bs q)

-- One page that is not free is given back.
pub free_page :
    (fuel p : ℕ) (s : Pmm) (bs : Blocks)
    → IsFree s bs
    → count p bs ≡ 0
    → 1 + total bs < 2 ^ 32
    → length bs < fuel
    → (t : Pmm) × (free fuel p 1 s ≡ some t) × IsFree t (release p 1 bs)
free_page fuel p s bs inv out fits enough =
    free-release fuel p 1 s bs inv (omega arith) (SepAll-of_count p bs out) fits enough
