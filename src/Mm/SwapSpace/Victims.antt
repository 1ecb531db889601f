-- ===== src/Mm/SwapSpace/Victims.antt =====
-- Pages that kern/mm/swap.c swaps out: where they are mapped, and what an entry written for one does to
-- the others.
use zonix.Prelude.{
  beq_ne, ◌∉◌, ℕ, ◌+◌, ◌*◌, ◌^◌, ◌<◌, ◌≡◌, refl, sym, ap, ◌∙◌, ◌≢◌, true, false, List, [], ◌∷◌,
  arith,
}
use zonix.Mm.Page.{Page}
use zonix.Mm.FirstFit.{Pmm}
use zonix.Mm.FirstFit.Blocks.{Blocks, count, release}
use zonix.Mm.FirstFit.OneByOne.{count-release_ne}
use zonix.Mm.PageTable.{Vm, write_word, page2pa, pdx, is_present}
use zonix.Mm.PageTable.Walk.{get_pte-present}
use zonix.Mm.PageTable.Insert.{LeadsTo-same}
use zonix.Mm.PageTable.Found.{maps, NotIn, find_vaddr_for_page-write_word}
use zonix.Mm.SwapSpace.{swap_entry, swap_sector, next_offset}
use zonix.Mm.SwapSpace.Return.{Mapped}

-- A page with the address where it is mapped and the address of its entry.
pub record Victim : Type 0 where
  pub page : Page
  pub addr : ℕ
  pub entry : ℕ

-- The page is mapped by its entry alone, which is not in the directory.
pub record Placed (s : Vm) (pgdir : ℕ) (v : Victim) : Type 0 where
  pub mapped : Mapped s pgdir v.page v.addr v.entry
  pub held : maps (page2pa v.page) (s.mem v.entry) ≡ true
  pub out : NotIn pgdir v.entry
  pub low : v.page < 2 ^ 20

one_page :
    (p q pte : ℕ)
    → p ≢ q
    → p < 2 ^ 20
    → q < 2 ^ 20
    → maps (page2pa p) pte ≡ true
    → maps (page2pa q) pte ≡ false
one_page p q pte ne lp lq h = ground arith

entries-ne :
    (s : Vm) (pgdir : ℕ) (w v : Victim)
    → Placed s pgdir w
    → Placed s pgdir v
    → w.page ≢ v.page
    → v.entry ≢ w.entry
entries-ne s pgdir w v pw pv ne same =
    let other = one_page w.page v.page (s.mem w.entry) ne pw.low pv.low pw.held in
    let here : maps (page2pa v.page) (s.mem w.entry) ≡ true =
      ap (λ e. maps (page2pa v.page) (s.mem e)) (sym same) ∙ pv.held in
    cc

-- An absent entry written for one page leaves the others where they are.
Placed-write_word :
    (s : Vm) (pgdir x : ℕ) (pmm : Pmm) (w v : Victim)
    → Placed s pgdir w
    → Placed s pgdir v
    → w.page ≢ v.page
    → is_present x ≡ false
    → Placed (record { pmm = pmm; mem = write_word w.entry x s.mem }) pgdir v
Placed-write_word s pgdir x pmm w v pw pv ne absent =
    let t : Vm = record { pmm = pmm; mem = write_word w.entry x s.mem } in
    let other = one_page w.page v.page (s.mem w.entry) ne pw.low pv.low pw.held in
    let (present, entry) =
      get_pte-present 0 pgdir v.addr v.entry false s s (pv.mapped.leads 0 v.addr false refl) in
    let slot : t.mem (pgdir + 4 * pdx v.addr) ≡ s.mem (pgdir + 4 * pdx v.addr) =
      rw (beq_ne (pgdir + 4 * pdx v.addr) w.entry (λ q. pw.out (pdx v.addr) (omega arith) (sym q)))
        refl in
    record {
      mapped = record {
        found =
            find_vaddr_for_page-write_word pgdir v.page w.entry x s.mem pw.out other absent
            ∙ pv.mapped.found;
        nonzero = pv.mapped.nonzero;
        leads = LeadsTo-same s t pgdir v.addr v.entry present entry slot;
        apart = pv.mapped.apart;
      };
      held = rw (beq_ne v.entry w.entry (entries-ne s pgdir w v pw pv ne)) pv.held;
      out = pv.out;
      low = pv.low;
    }

abbrev pub pages_of : List Victim → List Page
pages_of [] = []
pages_of (v ∷ vs) = v.page ∷ pages_of vs

abbrev pub entries_of : List Victim → List ℕ
entries_of [] = []
entries_of (v ∷ vs) = v.entry ∷ entries_of vs

abbrev pub AllPlaced : Vm → ℕ → List Victim → Type 0
AllPlaced s pgdir [] = Unit {0}
AllPlaced s pgdir (v ∷ vs) = Placed s pgdir v × AllPlaced s pgdir vs

-- No free block holds one of the pages.
abbrev pub NotFree : List Victim → Blocks → Type 0
NotFree [] bs = Unit {0}
NotFree (v ∷ vs) bs = (count v.page bs ≡ 0) × NotFree vs bs

abbrev pub released : List Victim → Blocks → Blocks
released [] bs = bs
released (v ∷ vs) bs = released vs (release v.page 1 bs)

-- The pages as they go to the disk from slot `off` on, the last one first, before what was there.
abbrev pub log : ℕ → ℕ → List Victim → List (ℕ × Page) → List (ℕ × Page)
log max off [] written = written
log max off (v ∷ vs) written =
    log max (next_offset max off) vs ((swap_sector (swap_entry off), v.page) ∷ written)

-- The entries hold the slots from `off` on.
abbrev pub InSlots : ℕ → ℕ → Vm → List Victim → Type 0
InSlots max off s [] = Unit {0}
InSlots max off s (v ∷ vs) =
    (s.mem v.entry ≡ swap_entry off)
    × (is_present (s.mem v.entry) ≡ false)
    × InSlots max (next_offset max off) s vs

pub AllPlaced-write_word :
    (s : Vm) (pgdir x : ℕ) (pmm : Pmm) (w : Victim) (vs : List Victim)
    → Placed s pgdir w
    → AllPlaced s pgdir vs
    → w.page ∉ pages_of vs
    → is_present x ≡ false
    → AllPlaced (record { pmm = pmm; mem = write_word w.entry x s.mem }) pgdir vs
AllPlaced-write_word s pgdir x pmm w [] pw ps ne absent = tt
AllPlaced-write_word s pgdir x pmm w (v ∷ vs) pw ps ne absent = (
  Placed-write_word s pgdir x pmm w v pw ps.0 (λ e. ground arith) absent,
  AllPlaced-write_word s pgdir x pmm w vs pw ps.1 (ground arith) absent,
)

pub NotFree-release :
    (p : Page) (vs : List Victim) (bs : Blocks)
    → p ∉ pages_of vs
    → NotFree vs bs
    → NotFree vs (release p 1 bs)
NotFree-release p [] bs ne h = tt
NotFree-release p (v ∷ vs) bs ne h = (
  count-release_ne p v.page bs (λ e. ground arith) h.0,
  NotFree-release p vs bs (ground arith) h.1,
)

pub entry-not-mem :
    (s : Vm) (pgdir : ℕ) (w : Victim) (vs : List Victim)
    → Placed s pgdir w
    → AllPlaced s pgdir vs
    → w.page ∉ pages_of vs
    → w.entry ∉ entries_of vs
entry-not-mem s pgdir w [] pw ps ne = refl
entry-not-mem s pgdir w (v ∷ vs) pw ps ne =
    let apart = entries-ne s pgdir w v pw ps.0 (λ e. ground arith) in
    ground (arith, entry-not-mem s pgdir w vs pw ps.1)
