-- ===== src/Mm/PageTable/Insert.antt =====
-- New entries of the page tables of kern/mm/pmm.c.
use zonix.Prelude.{
  ◌==◌, beq_self, beq_ne, bit_or_low, bit_or_one, ℕ, ◌+◌, ◌*◌, ◌/◌, ◌%◌, ◌^◌, ◌<◌, ◌≡◌, refl, sym,
  ap, ◌∙◌, ◌≢◌, Bool, true, false, Option, none, some, arith,
}
use Prim.Native.Nat.{bit_or}
use zonix.Mm.Page.{Page, update}
use zonix.Mm.FirstFit.{Pmm, alloc, free}
use zonix.Mm.PageTable.{
  Vm, page2pa, pdx, ptx, is_present, alloc_pages, pages_free, get_pte, table_entry, page_insert,
  write_word,
}
use zonix.Mm.PageTable.Walk.{get_pte-present, get_pte_present}

pub alloc_pages-some :
    (fuel n : ℕ) (s : Vm) (o : Option Page) (t : Pmm)
    → alloc fuel n s.pmm ≡ some (o, t)
    → alloc_pages fuel n s ≡ some (o, record s { pmm = t })
unfolding alloc_pages
alloc_pages-some fuel n s o t h =
    ap (λ r. elim r [ none ↦ none | some (p, pmm) ↦ some (p, record s { pmm = pmm }) ]) h

pub pages_free-some :
    (fuel base n : ℕ) (s : Vm) (t : Pmm)
    → free fuel base n s.pmm ≡ some t
    → pages_free fuel base n s ≡ some (record s { pmm = t })
unfolding pages_free
pages_free-some fuel base n s t h =
    ap (λ r. elim r [ none ↦ none | some pmm ↦ some (record s { pmm = pmm }) ]) h

-- The word that `page_insert` writes.
entry_word :
    (page perm : ℕ)
    → perm < 8
    → perm % 2 ≡ 0
    → bit_or (bit_or (page2pa page) perm) 1 ≡ page2pa page + perm + 1
entry_word page perm small even =
    let eighths : page2pa page ≡ page * 512 % 2 ^ 29 * 8 = omega arith in
    let low = bit_or_low (page * 512 % 2 ^ 29) perm small in
    let sum : bit_or (page2pa page) perm ≡ page2pa page + perm = rw eighths low in
    rw sum (bit_or_one (page2pa page + perm) (omega arith))

-- Every walk to an address of the page of `la` gives the entry `e`, and changes nothing.
abbrev pub LeadsTo : Vm → ℕ → ℕ → ℕ → Type 0
LeadsTo s pgdir la e =
    (fuel la' : ℕ) (create : Bool)
    → la' / 4096 ≡ la / 4096
    → get_pte fuel pgdir la' create s ≡ some (some e, s)

-- The walk depends on the word of the directory and on the number of the page.
pub LeadsTo-same :
    (s t : Vm) (pgdir la e : ℕ)
    → is_present (s.mem (pgdir + 4 * pdx la)) ≡ true
    → e ≡ table_entry (pgdir + 4 * pdx la) la s
    → t.mem (pgdir + 4 * pdx la) ≡ s.mem (pgdir + 4 * pdx la)
    → LeadsTo t pgdir la e
LeadsTo-same s t pgdir la e present entry kept fuel la' create same =
    let slot = pgdir + 4 * pdx la in
    let present_t : is_present (t.mem slot) ≡ true = rw kept present in
    let entry_t : table_entry slot la t ≡ e = rw kept (sym entry) in
    let directory : pdx la' ≡ pdx la = omega arith in
    let table : ptx la' ≡ ptx la = omega arith in
    let entry_there : table_entry (pgdir + 4 * pdx la') la' t ≡ e = rw (directory, table) entry_t in
    get_pte_present fuel pgdir la' create t (rw directory present_t)
    ∙ ap (λ a. some (some a, t)) entry_there

-- If the walk gives the entry `e`, which is not the directory's own, and `perm` are the bits 1 and 2, then
-- `page_insert` succeeds, counts one more reference, and writes that entry alone: a walk to any address of
-- the page then gives `e`, and it holds the address of the page with `perm` and the bit PTE_P.
pub page_insert-maps :
    (fuel pgdir la perm e : ℕ) (page : Page) (s u : Vm)
    → get_pte fuel pgdir la true s ≡ some (some e, u)
    → e ≢ pgdir + 4 * pdx la
    → perm < 8
    → perm % 2 ≡ 0
    → (t : Vm) × (page_insert fuel pgdir page la perm s ≡ some (true, t))
      × LeadsTo t pgdir la e
      × (t.mem e ≡ page2pa page + perm + 1)
      × ((x : ℕ) → x ≢ e → t.mem x ≡ u.mem x)
      × ((t.pmm.pages page).ref ≡ (u.pmm.pages page).ref + 1)
unfolding page_insert
page_insert-maps fuel pgdir la perm e page s u walk apart small even =
    let (present, entry) = get_pte-present fuel pgdir la e true s u walk in
    let slot = pgdir + 4 * pdx la in
    let t : Vm = record {
      pmm = record u.pmm { pages = update page (λ d. record d { ref = d.ref + 1 }) u.pmm.pages };
      mem = write_word e (bit_or (bit_or (page2pa page) perm) 1) u.mem;
    } in
    let other : (slot == e) ≡ false = beq_ne slot e (λ q. apart (sym q)) in
    let kept : t.mem slot ≡ u.mem slot = rw other refl in
    (
      t,
      rw walk refl,
      LeadsTo-same u t pgdir la e present entry kept,
      rw (beq_self e) (entry_word page perm small even),
      (λ x ne. rw (beq_ne x e ne) refl),
      rw (beq_self page) refl,
    )
