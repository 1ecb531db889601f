-- ===== src/Mm/FirstFit/Coverage.antt =====
-- Which pages are free, before and after the abstract operations of the first-fit manager.
use zonix.Prelude.{Option-cases, ℕ, ◌+◌, ◌-◌, ◌≡◌, refl, inl, inr, some, [], ◌∷◌, ◌++◌, arith}
use zonix.Mm.Page.{Page}
use zonix.Mm.FirstFit.Blocks.{Blocks, total, inside, count, first_fit, merge, release}

pub inside_join : (p m n i : ℕ) → inside p (m + n) i ≡ inside p m i + inside (p + m) n i
unfolding inside
inside_join p m n i = ground arith

pub count-append : (i : Page) (bs cs : Blocks) → count i (bs ++ cs) ≡ count i bs + count i cs
count-append i [] cs = omega arith
count-append i (b ∷ bs) cs = omega (arith, count-append i bs cs)

pub total-append : (bs cs : Blocks) → total (bs ++ cs) ≡ total bs + total cs
total-append [] cs = omega arith
total-append (b ∷ bs) cs = omega (arith, total-append bs cs)

pub first_fit-count :
    (n : ℕ) (bs : Blocks) {p : Page} {r : Blocks}
    → first_fit n bs ≡ some (p, r)
    → (i : Page) → count i bs ≡ inside p n i + count i r
unfolding first_fit
first_fit-count n [] h i = cc
first_fit-count n (b ∷ bs) h i = elim (Option-cases (first_fit n bs)) [
  | inl e ↦ ground (arith, inside_join b.start n (b.size - n) i)
  | inr ((q, s), e) ↦ ground (arith, inside_join b.start n (b.size - n) i, first_fit-count n bs e i)
]

pub first_fit-total :
    (n : ℕ) (bs : Blocks) {p : Page} {r : Blocks}
    → first_fit n bs ≡ some (p, r)
    → total bs ≡ n + total r
unfolding first_fit
first_fit-total n [] h = cc
first_fit-total n (b ∷ bs) h = elim (Option-cases (first_fit n bs)) [
  | inl e ↦ ground arith
  | inr ((q, s), e) ↦ ground (arith, first_fit-total n bs e)
]

merge-count :
    (base n : ℕ) (bs : Blocks) (i : Page)
    → inside (merge base n bs).0.start (merge base n bs).0.size i + count i (merge base n bs).1
      ≡ inside base n i + count i bs
unfolding merge
merge-count base n [] i = refl
merge-count base n (b ∷ bs) i = ground (
  arith,
  merge-count base (n + b.size) bs i,
  merge-count b.start (b.size + n) bs i,
  merge-count base n bs i,
  inside_join base n b.size i,
  inside_join b.start b.size n i,
)

-- After a release each page is held once more by the released range, and as often by the rest.
pub release-count :
    (base n : ℕ) (bs : Blocks) (i : Page)
    → count i (release base n bs) ≡ inside base n i + count i bs
unfolding release
release-count base n bs i =
    omega (
      arith,
      merge-count base n bs i,
      count-append i (merge base n bs).1 ((merge base n bs).0 ∷ []),
    )

merge-total :
    (base n : ℕ) (bs : Blocks) → (merge base n bs).0.size + total (merge base n bs).1 ≡ n + total bs
unfolding merge
merge-total base n [] = refl
merge-total base n (b ∷ bs) = ground (
  arith,
  merge-total base (n + b.size) bs,
  merge-total b.start (b.size + n) bs,
  merge-total base n bs,
)

pub release-total : (base n : ℕ) (bs : Blocks) → total (release base n bs) ≡ n + total bs
unfolding release
release-total base n bs =
    omega
      (arith, merge-total base n bs, total-append (merge base n bs).1 ((merge base n bs).0 ∷ []))
