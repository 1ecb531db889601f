-- ===== src/Mm/FirstFit/Merging.antt =====
-- The abstract operations of the first-fit manager keep the blocks apart, and a release leaves no
-- two blocks that touch.
use zonix.Prelude.{
  Option-cases, ℕ, ◌+◌, ◌-◌, ◌≤◌, ◌<◌, ◌≡◌, inl, inr, Option, none, some, [], ◌∷◌, ◌++◌, arith,
}
use zonix.Mm.Page.{Page}
use zonix.Mm.FirstFit.Blocks.{Block, Blocks, Sep, SepAll, Apart, first_fit, merge, release}

-- A block that is apart from a range and from all blocks is apart from what they merge to.
Sep-merge :
    (k : ℕ) (c : Block) (base n : ℕ) (bs : Blocks)
    → 0 < c.size
    → 0 < n
    → Sep k base n c
    → SepAll k c.start c.size bs
    → Apart k bs
    → Sep k (merge base n bs).0.start (merge base n bs).0.size c
unfolding merge
Sep-merge k c base n [] pc pn s cs a = s
Sep-merge k c base n (b ∷ bs) pc pn s cs a = ground (
  arith,
  Sep-merge k c base (n + b.size) bs,
  Sep-merge k c b.start (b.size + n) bs,
  Sep-merge k c base n bs,
)

SepAll-merge : (k p m base n : ℕ) (bs : Blocks) → SepAll k p m bs → SepAll k p m (merge base n bs).1
unfolding merge
SepAll-merge k p m base n [] s = s
SepAll-merge k p m base n (b ∷ bs) s = ground (
  arith,
  SepAll-merge k p m base (n + b.size) bs,
  SepAll-merge k p m b.start (b.size + n) bs,
  SepAll-merge k p m base n bs,
)

SepAll-join :
    (k p m n : ℕ) (bs : Blocks)
    → 0 < m
    → 0 < n
    → Apart k bs
    → SepAll 0 p m bs
    → SepAll 0 (p + m) n bs
    → SepAll 0 p (m + n) bs
SepAll-join k p m n [] pm pn a s t = tt
SepAll-join k p m n (b ∷ bs) pm pn a s t = (omega arith, SepAll-join k p m n bs pm pn a.2 s.1 t.1)

SepAll-weaken : (k p m : ℕ) (bs : Blocks) → SepAll k p m bs → SepAll 0 p m bs
SepAll-weaken k p m [] s = tt
SepAll-weaken k p m (b ∷ bs) s = (omega arith, SepAll-weaken k p m bs s.1)

pub SepAll-append :
    (k p m : ℕ) (bs cs : Blocks) → SepAll k p m bs → SepAll k p m cs → SepAll k p m (bs ++ cs)
SepAll-append k p m [] cs s t = t
SepAll-append k p m (b ∷ bs) cs s t = (s.0, SepAll-append k p m bs cs s.1 t)

merge-Apart :
    (k base n : ℕ) (bs : Blocks)
    → k ≤ 1
    → 0 < n
    → SepAll 0 base n bs
    → Apart k bs
    → (0 < (merge base n bs).0.size)
      × SepAll k (merge base n bs).0.start (merge base n bs).0.size (merge base n bs).1
      × Apart k (merge base n bs).1
unfolding merge
merge-Apart k base n [] le pn s a = (pn, tt, tt)
merge-Apart k base n (b ∷ bs) le pn s a = ground (
  arith,
  merge-Apart k base (n + b.size) bs,
  merge-Apart k b.start (b.size + n) bs,
  merge-Apart k base n bs,
  SepAll-join k base n b.size bs,
  SepAll-join k b.start b.size n bs,
  SepAll-weaken k b.start b.size bs,
  Sep-merge k b base n bs,
  SepAll-merge k b.start b.size base n bs,
)

pub Apart-snoc :
    (k : ℕ) (bs : Blocks) (b : Block)
    → 0 < b.size
    → SepAll k b.start b.size bs
    → Apart k bs
    → Apart k (bs ++ b ∷ [])
Apart-snoc k [] b pb s a = (pb, tt, tt)
Apart-snoc k (c ∷ bs) b pb s a = (
  a.0,
  SepAll-append k c.start c.size bs (b ∷ []) a.1 (omega arith, tt),
  Apart-snoc k bs b pb s.1 a.2,
)

-- A release of pages that are not free keeps blocks disjoint (`k = 0`), and if no two touched
-- before, none touch afterwards (`k = 1`).
pub release-Apart :
    (k base n : ℕ) (bs : Blocks)
    → k ≤ 1
    → 0 < n
    → SepAll 0 base n bs
    → Apart k bs
    → Apart k (release base n bs)
unfolding release
release-Apart k base n bs le pn s a =
    let (pb, sb, ar) = merge-Apart k base n bs le pn s a in
    Apart-snoc k (merge base n bs).1 (merge base n bs).0 pb sb ar

pub SepAll-part :
    (k p m q n : ℕ) (bs : Blocks) → p ≤ q → q + n ≤ p + m → SepAll k p m bs → SepAll k q n bs
SepAll-part k p m q n [] l h s = tt
SepAll-part k p m q n (b ∷ bs) l h s = (omega arith, SepAll-part k p m q n bs l h s.1)

-- The blocks after an allocation, where one was found.
abbrev Fitted : (Blocks → Type 0) → Option (Page × Blocks) → Type 0
Fitted P none = Unit {0}
Fitted P (some (p, r)) = P r

first_fit-SepAll :
    (k p m n : ℕ) (bs : Blocks) → SepAll k p m bs → Fitted (SepAll k p m) (first_fit n bs)
unfolding first_fit
first_fit-SepAll k p m n [] s = tt
first_fit-SepAll k p m n (b ∷ bs) s = elim (Option-cases (first_fit n bs)) [
  | inl e ↦ ground arith
  | inr ((q, r), e) ↦ ground (arith, first_fit-SepAll k p m n bs)
]

first_fit-Fitted : (k n : ℕ) (bs : Blocks) → Apart k bs → Fitted (Apart k) (first_fit n bs)
unfolding first_fit
first_fit-Fitted k n [] a = tt
first_fit-Fitted k n (b ∷ bs) a = elim (Option-cases (first_fit n bs)) [
  | inl e ↦ ground (arith, SepAll-part k b.start b.size (b.start + n) (b.size - n) bs)
  | inr ((q, r), e) ↦ ground (
    arith,
    first_fit-SepAll k b.start b.size n bs,
    first_fit-Fitted k n bs,
    SepAll-part k b.start b.size (b.start + n) (b.size - n) bs,
  )
]

-- An allocation keeps the blocks as far apart as they were.
pub first_fit-Apart :
    (k n : ℕ) (bs : Blocks) {p : Page} {r : Blocks}
    → Apart k bs
    → first_fit n bs ≡ some (p, r)
    → Apart k r
first_fit-Apart k n bs a e = rw e at (first_fit-Fitted k n bs a)
