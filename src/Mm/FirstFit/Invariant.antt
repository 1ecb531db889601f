-- ===== src/Mm/FirstFit/Invariant.antt =====
-- The state of the first-fit manager stands for a sequence of blocks.
use zonix.Prelude.{◌∉◌, ℕ, ◌+◌, ◌%◌, ◌^◌, ◌≤◌, ◌<◌, ◌≡◌, refl, ◌≢◌, [], ◌∷◌, ◌++◌, arith}
use zonix.Links.Ring.{Ring}
use zonix.Mm.Page.{Page, PageDesc, Pages, free_list, page_link, update}
use zonix.Mm.FirstFit.{Pmm}
use zonix.Mm.FirstFit.Blocks.{Block, Blocks, entries, total, SepAll, Apart, SepAll-at}

-- The first page of each block has its size and is marked.
abbrev pub Described : Pages → Blocks → Type 0
Described pages [] = Unit {0}
Described pages (b ∷ bs) =
    ((pages b.start).property ≡ b.size) × ((pages b.start).flags % 2 ≡ 1) × Described pages bs

pub record IsFree (s : Pmm) (bs : Blocks) : Type 0 where
  pub ring : Ring s.links free_list (entries bs)
  pub described : Described s.pages bs
  pub counted : s.nr_free ≡ total bs
  pub fits : total bs < 2 ^ 32
  pub apart : Apart 0 bs

-- The page is the first of no block.
abbrev pub Outside : Page → Blocks → Type 0
Outside q [] = Unit {0}
Outside q (b ∷ bs) = (q ≢ b.start) × Outside q bs

pub Described-update :
    (q : Page) (f : PageDesc → PageDesc) (pages : Pages) (bs : Blocks)
    → Outside q bs
    → Described pages bs
    → Described (update q f pages) bs
Described-update q f pages [] o d = tt
Described-update q f pages (b ∷ bs) o d =
    (ground arith, ground arith, Described-update q f pages bs o.1 d.2)

pub Described-append :
    (pages : Pages) (bs cs : Blocks)
    → Described pages bs
    → Described pages cs
    → Described pages (bs ++ cs)
Described-append pages [] cs d e = e
Described-append pages (b ∷ bs) cs d e = (d.0, d.1, Described-append pages bs cs d.2 e)

pub Described-split :
    (pages : Pages) (bs cs : Blocks)
    → Described pages (bs ++ cs)
    → Described pages bs × Described pages cs
Described-split pages [] cs d = (tt, d)
Described-split pages (b ∷ bs) cs d =
    let (x, y) = Described-split pages bs cs d.2 in ((d.0, d.1, x), y)

pub Outside-append :
    (q : Page) (bs cs : Blocks) → Outside q bs → Outside q cs → Outside q (bs ++ cs)
Outside-append q [] cs o p = p
Outside-append q (b ∷ bs) cs o p = (o.0, Outside-append q bs cs o.1 p)

pub not-mem-entries :
    (q : Page) (bs : Blocks) → Outside q bs → page_link q ∉ (free_list ∷ entries bs)
not-mem-entries q [] o = ground arith
not-mem-entries q (b ∷ bs) o = ground (arith, not-mem-entries q bs)

pub entries-append : (bs cs : Blocks) → entries (bs ++ cs) ≡ entries bs ++ entries cs
entries-append [] cs = refl
entries-append (b ∷ bs) cs = rw (entries-append bs cs)

-- A page of a range that is apart from the blocks is the first of none.
pub Outside-SepAll :
    (q p m : ℕ) (bs : Blocks) → Apart 0 bs → p ≤ q → q < p + m → SepAll 0 p m bs → Outside q bs
Outside-SepAll q p m [] a l h s = tt
Outside-SepAll q p m (b ∷ bs) a l h s = (omega arith, Outside-SepAll q p m bs a.2 l h s.1)

-- A page of a block is the first of no other.
pub Outside-Apart :
    (q : Page) (bs : Blocks) (b : Block) (cs : Blocks)
    → Apart 0 (bs ++ b ∷ cs)
    → b.start ≤ q
    → q < b.start + b.size
    → Outside q bs × Outside q cs
Outside-Apart q [] b cs a l h = (tt, Outside-SepAll q b.start b.size cs a.2 l h a.1)
Outside-Apart q (c ∷ bs) b cs a l h =
    let (before, after) = Outside-Apart q bs b cs a.2 l h in
    ((ground (arith, SepAll-at 0 c.start c.size bs b cs, a.1), before), after)
