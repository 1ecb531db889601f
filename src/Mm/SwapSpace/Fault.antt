-- ===== src/Mm/SwapSpace/Fault.antt =====
-- The page fault of kern/mm/vmm.c at an address that was never used.
use zonix.Prelude.{
  ◌==◌, ℕ, ◌+◌, ◌-◌, ◌*◌, ◌%◌, ◌≡◌, refl, sym, ap, ◌∙◌, ◌≢◌, Bool, true, none, some, arith,
}
use zonix.Mm.Page.{Page}
use zonix.Mm.PageTable.Walk.{get_pte-present, get_pte_present}
use zonix.Mm.PageTable.Insert.{LeadsTo, alloc_pages-some, page_insert-maps}
use zonix.Mm.SwapSpace.{SwapSpace, vmm_pg_fault}
use zonix.Mm.Swap.{SwapManager}
use zonix.Mm.PageTable.{
  insert_page, Vm, page2pa, pdx, get_pte, alloc_pages, pgdir_alloc_page, page_insert,
}
use zonix.Mm.FirstFit.{Pmm, alloc}

inserted :
    (fuel pgdir la : ℕ) (page : Page) (u given v : Vm)
    → alloc_pages fuel 1 u ≡ some (some page, given)
    → page_insert fuel pgdir page la 4 given ≡ some (true, v)
    → pgdir_alloc_page fuel pgdir la 4 u ≡ some (some page, v)
unfolding pgdir_alloc_page
inserted fuel pgdir la page u given v taken done =
    ap
      (λ o. elim o [
        | none ↦ none
        | some (none, t) ↦ some (none, t)
        | some (some p, t) ↦ insert_page p (page_insert fuel pgdir p la 4 t)
      ])
      taken
    ∙ ap (insert_page page) done

-- The page that `alloc` gives is mapped.
pgdir_alloc_page-maps :
    (fuel pgdir la e : ℕ) (page : Page) (s u : Vm) (t : Pmm)
    → get_pte fuel pgdir la true s ≡ some (some e, u)
    → alloc fuel 1 u.pmm ≡ some (some page, t)
    → e ≢ pgdir + 4 * pdx la
    → (v : Vm) × (pgdir_alloc_page fuel pgdir la 4 u ≡ some (some page, v))
      × LeadsTo v pgdir la e
      × (v.mem e ≡ page2pa page + 5)
      × ((x : ℕ) → x ≢ e → v.mem x ≡ u.mem x)
      × ((v.pmm.pages page).ref ≡ (t.pages page).ref + 1)
pgdir_alloc_page-maps fuel pgdir la e page s u t walk taken apart =
    let (present, entry) = get_pte-present fuel pgdir la e true s u walk in
    let given : Vm = record u { pmm = t } in
    let again : get_pte fuel pgdir la true given ≡ some (some e, given) =
      get_pte_present fuel pgdir la true given present
      ∙ ap (λ a. some (some a, given)) (sym entry) in
    let (v, done, leads, word, others, ref) =
      page_insert-maps fuel pgdir la 4 e page given given again apart (ground arith) refl in
    (
      v,
      inserted fuel pgdir la page u given v (alloc_pages-some fuel 1 u (some page) t taken) done,
      leads,
      word ∙ ground arith,
      others,
      ref,
    )

-- If the walk to the address `addr` finds or makes the entry `e`, which is 0 and not the directory's own, and
-- there is a page, then the page fault returns; from then on every walk to an address of that page of
-- memory gives `e`, which holds the address of the new page and the bits PTE_U and PTE_P, the page counts
-- one more reference, no other word of memory has changed since the walk, and nothing was swapped.
pub vmm_pg_fault-maps :
    {S : Type 0} (m : SwapManager S) (blk_read : ℕ → Bool) (fuel pgdir addr e : ℕ) (page : Page)
    (s : SwapSpace S) (u : Vm) (t : Pmm)
    → get_pte fuel pgdir (addr - addr % 4096) true s.vm ≡ some (some e, u)
    → u.mem e ≡ 0
    → e ≢ pgdir + 4 * pdx (addr - addr % 4096)
    → alloc fuel 1 u.pmm ≡ some (some page, t)
    → (v : SwapSpace S) × (vmm_pg_fault m blk_read fuel pgdir addr s ≡ some v)
      × LeadsTo v.vm pgdir addr e
      × (v.vm.mem e ≡ page2pa page + 5)
      × ((x : ℕ) → x ≢ e → v.vm.mem x ≡ u.mem x)
      × ((v.vm.pmm.pages page).ref ≡ (t.pages page).ref + 1)
      × (v.mgr ≡ s.mgr)
      × (v.written ≡ s.written)
unfolding vmm_pg_fault
vmm_pg_fault-maps m blk_read fuel pgdir addr e page s u t walk zero_entry apart taken =
    let la = addr - addr % 4096 in
    let (v, done, leads, word, others, ref) =
      pgdir_alloc_page-maps fuel pgdir la e page s.vm u t walk taken apart in
    let empty : (u.mem e == 0) ≡ true = ground arith in
    (
      record s { vm = v },
      rw (walk, empty, done) refl,
      (λ fuel' la' create same. leads fuel' la' create (omega arith)),
      word,
      others,
      ref,
      refl,
      refl,
    )
