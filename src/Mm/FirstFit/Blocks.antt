-- ===== src/Mm/FirstFit/Blocks.antt =====
-- The abstract view of the free list of kern/mm/pmm_firstfit.c: its blocks, in order, each the
-- first page and the number of pages.
use zonix.Prelude.{
  ltb, leb, ◌==◌, if◌then◌else◌, ℕ, ◌+◌, ◌-◌, ◌≤◌, ◌<◌, ◌⊎◌, ◌&&◌, Option, none, some, List, [],
  ◌∷◌, ◌++◌,
}
use zonix.Links.{Ptr}
use zonix.Mm.Page.{Page, page_link}

pub record Block : Type 0 where
  pub start : Page
  pub size : ℕ

abbrev pub block : Page → ℕ → Block
block p m = record { start = p; size = m }

abbrev pub Blocks : Type 0
Blocks = List Block

abbrev pub entries : Blocks → List Ptr
entries [] = []
entries (b ∷ bs) = page_link b.start ∷ entries bs

abbrev pub total : Blocks → ℕ
total [] = 0
total (b ∷ bs) = b.size + total bs

unfoldable pub inside : Page → ℕ → Page → ℕ
inside p m i = if leb p i && ltb i (p + m) then 1 else 0

-- How many blocks hold page `i`.
abbrev pub count : Page → Blocks → ℕ
count i [] = 0
count i (b ∷ bs) = inside b.start b.size i + count i bs

-- The first block of at least `n` pages gives its first `n` and keeps its place with the rest.
unfoldable pub first_fit : ℕ → Blocks → Option (Page × Blocks)
first_fit n [] = none
first_fit n (b ∷ bs) =
    if leb n b.size
    then some (b.start, if ltb n b.size then block (b.start + n) (b.size - n) ∷ bs else bs)
    else elim (first_fit n bs) [ none ↦ none | some (p, r) ↦ some (p, b ∷ r) ]

-- The pass of `free` over the blocks: the merged block, and the blocks that it does not touch.
unfoldable pub merge : Page → ℕ → Blocks → Block × Blocks
merge base n [] = (block base n, [])
merge base n (b ∷ bs) =
    let next = merge base (n + b.size) bs in
    let back = merge b.start (b.size + n) bs in
    let keep = merge base n bs in
    if base + n == b.start
    then next
    else if b.start + b.size == base
    then back
    else (keep.0, b ∷ keep.1)

unfoldable pub release : Page → ℕ → Blocks → Blocks
unfolding merge
release base n bs = let (b, r) = merge base n bs in r ++ b ∷ []

-- The ranges are disjoint, with at least `k` pages between them.
abbrev pub Sep : ℕ → Page → ℕ → Block → Type 0
Sep k p m b = (p + m + k ≤ b.start) ⊎ (b.start + b.size + k ≤ p)

abbrev pub SepAll : ℕ → Page → ℕ → Blocks → Type 0
SepAll k p m [] = Unit {0}
SepAll k p m (b ∷ bs) = Sep k p m b × SepAll k p m bs

-- No block is empty, and any two are disjoint with at least `k` pages between them: for `k = 0` no
-- page is free twice, for `k = 1` no two blocks could be merged.
abbrev pub Apart : ℕ → Blocks → Type 0
Apart k [] = Unit {0}
Apart k (b ∷ bs) = (0 < b.size) × SepAll k b.start b.size bs × Apart k bs

pub SepAll-at :
    (k p m : ℕ) (bs : Blocks) (b : Block) (cs : Blocks) → SepAll k p m (bs ++ b ∷ cs) → Sep k p m b
SepAll-at k p m [] b cs s = s.0
SepAll-at k p m (c ∷ bs) b cs s = SepAll-at k p m bs b cs s.1
