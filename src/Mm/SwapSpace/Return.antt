-- ===== src/Mm/SwapSpace/Return.antt =====
-- A page of kern/mm/swap.c that is swapped out and comes back at a page fault.
use zonix.Prelude.{
  ◌==◌, beq_self, beq_ne, ℕ, ◌+◌, ◌-◌, ◌*◌, ◌/◌, ◌%◌, ◌^◌, ◌<◌, ◌≡◌, refl, sym, ◌∙◌, ◌≢◌, Bool,
  true, false, some, ◌∷◌, arith,
}
use zonix.Mm.Page.{Page}
use zonix.Mm.PageTable.Walk.{get_pte-present}
use zonix.Mm.PageTable.Insert.{
  LeadsTo, LeadsTo-same, alloc_pages-some, pages_free-some, page_insert-maps,
}
use zonix.Mm.SwapSpace.{
  SwapSpace, swap_in, swap_page, swap_entry, swap_sector, next_offset, vmm_pg_fault,
}
use zonix.Mm.Swap.{SwapManager}
use zonix.Mm.PageTable.{Vm, write_word, page2pa, pdx, get_pte, find_vaddr_for_page, is_present}
use zonix.Mm.FirstFit.{Pmm, alloc, free}

-- A write to a word that is not in the directory keeps every walk through it.
LeadsTo-write_word :
    (s : Vm) (pgdir la e v : ℕ) (pmm : Pmm)
    → LeadsTo s pgdir la e
    → e ≢ pgdir + 4 * pdx la
    → LeadsTo (record { pmm = pmm; mem = write_word e v s.mem }) pgdir la e
LeadsTo-write_word s pgdir la e v pmm leads apart =
    let (present, entry) = get_pte-present 0 pgdir la e false s s (leads 0 la false refl) in
    LeadsTo-same s (record { pmm = pmm; mem = write_word e v s.mem }) pgdir la e present entry
      (rw (beq_ne (pgdir + 4 * pdx la) e (λ q. apart (sym q))) refl)

LeadsTo-pmm :
    (s : Vm) (pgdir la e : ℕ) (pmm : Pmm)
    → LeadsTo s pgdir la e
    → LeadsTo (record s { pmm = pmm }) pgdir la e
LeadsTo-pmm s pgdir la e pmm leads =
    let (present, entry) = get_pte-present 0 pgdir la e false s s (leads 0 la false refl) in
    LeadsTo-same s (record s { pmm = pmm }) pgdir la e present entry refl

-- Where a page is mapped: its address is found and not 0, and the entry there is `e`, which is not the
-- directory's own.
pub record Mapped (s : Vm) (pgdir : ℕ) (page : Page) (addr e : ℕ) : Type 0 where
  pub found : find_vaddr_for_page pgdir page s.mem ≡ addr
  pub nonzero : addr ≢ 0
  pub leads : LeadsTo s pgdir addr e
  pub apart : e ≢ pgdir + 4 * pdx addr

module _ {S : Type 0} (m : SwapManager S) (blk_write blk_read : ℕ → Bool) (fuel pgdir : ℕ) where
  -- A turn of `swap_out` that writes the page and gives it back.
  pub swap_page-releases :
      (page : Page) (addr e : ℕ) (s : SwapSpace S) (pmm : Pmm)
      → Mapped s.vm pgdir page addr e
      → blk_write (swap_sector (swap_entry s.swap_offset)) ≡ true
      → free fuel page 1 s.vm.pmm ≡ some pmm
      → swap_page m blk_write fuel pgdir page s
        ≡ some (record s {
          vm = record { pmm = pmm; mem = write_word e (swap_entry s.swap_offset) s.vm.mem };
          swap_offset = next_offset s.max_swap_offset s.swap_offset;
          written = (swap_sector (swap_entry s.swap_offset), page) ∷ s.written;
        })
  swap_page-releases page addr e s pmm mapped wrote freed =
      let there : (find_vaddr_for_page pgdir page s.vm.mem == 0) ≡ false =
        rw mapped.found (beq_ne addr 0 mapped.nonzero) in
      let walk : get_pte fuel pgdir (find_vaddr_for_page pgdir page s.vm.mem) false s.vm
          ≡ some (some e, s.vm) =
        rw mapped.found (mapped.leads fuel addr false refl) in
      let back =
        pages_free-some fuel page 1
          (record s.vm { mem = write_word e (swap_entry s.swap_offset) s.vm.mem }) pmm freed in
      rw (there, walk, wrote, back) refl

  -- `swap_in` of an entry that the walk finds.
  swap_in-maps :
      (addr e : ℕ) (page : Page) (s : SwapSpace S) (pmm : Pmm)
      → LeadsTo s.vm pgdir addr e
      → e ≢ pgdir + 4 * pdx addr
      → alloc fuel 1 s.vm.pmm ≡ some (some page, pmm)
      → blk_read (swap_sector (s.vm.mem e)) ≡ true
      → (v : Vm) × (swap_in m blk_read fuel pgdir addr s
          ≡ some (some page, record s { vm = v; mgr = m.map_swappable addr page s.mgr }))
        × LeadsTo v pgdir addr e
        × (v.mem e ≡ page2pa page + 7)
  unfolding swap_in
  swap_in-maps addr e page s pmm leads apart taken read =
      let given : Vm = record s.vm { pmm = pmm } in
      let leads' = LeadsTo-pmm s.vm pgdir addr e pmm leads in
      let (v, done, leads_v, word, others, ref) =
        page_insert-maps fuel pgdir addr 6 e page given given (leads' fuel addr true refl) apart
          (ground arith) refl in
      (
        v,
        rw
            (
              alloc_pages-some fuel 1 s.vm (some page) pmm taken,
              leads' fuel addr false refl,
              read,
              done,
            )
            refl,
        leads_v,
        word ∙ ground arith,
      )

  -- A slot's entry is no present page and not 0.
  pub swap_entry-absent :
      (offset : ℕ)
      → 0 < offset
      → offset < 2 ^ 24
      → ((swap_entry offset == 0) ≡ false) × (is_present (swap_entry offset) ≡ false)
  unfolding swap_entry
  swap_entry-absent offset lo hi = (ground arith, ground arith)

  -- A page of memory that is mapped is swapped out: the write to the sector of the next slot, a slot of 24
  -- bits other than 0, succeeds and the page is freed. Then its entry is absent and holds the slot; at a
  -- page fault at any address of the page, if there is a page and the read of that same sector succeeds, the
  -- fault returns, the entry maps the new page for the user to read and write, and the manager has it.
  pub swap_page-vmm_pg_fault :
      (page page' : Page) (addr e x : ℕ) (s : SwapSpace S) (pmm pmm' : Pmm)
      → Mapped s.vm pgdir page addr e
      → 0 < s.swap_offset
      → s.swap_offset < 2 ^ 24
      → blk_write (swap_sector (swap_entry s.swap_offset)) ≡ true
      → free fuel page 1 s.vm.pmm ≡ some pmm
      → x / 4096 ≡ addr / 4096
      → blk_read (swap_sector (swap_entry s.swap_offset)) ≡ true
      → alloc fuel 1 pmm ≡ some (some page', pmm')
      → (t : SwapSpace S) × (v : SwapSpace S) × (swap_page m blk_write fuel pgdir page s ≡ some t)
        × (t.vm.mem e ≡ swap_entry s.swap_offset)
        × (is_present (t.vm.mem e) ≡ false)
        × (t.written ≡ (swap_sector (swap_entry s.swap_offset), page) ∷ s.written)
        × (vmm_pg_fault m blk_read fuel pgdir x t ≡ some v)
        × LeadsTo v.vm pgdir addr e
        × (v.vm.mem e ≡ page2pa page' + 7)
        × (v.mgr ≡ m.map_swappable (x - x % 4096) page' s.mgr)
  unfolding vmm_pg_fault
  swap_page-vmm_pg_fault page page' addr e x s pmm pmm' mapped lo hi wrote freed same read taken =
      let entry = swap_entry s.swap_offset in
      let la = x - x % 4096 in
      let t : SwapSpace S = record s {
        vm = record { pmm = pmm; mem = write_word e entry s.vm.mem };
        swap_offset = next_offset s.max_swap_offset s.swap_offset;
        written = (swap_sector entry, page) ∷ s.written;
      } in
      let word : t.vm.mem e ≡ entry = rw (beq_self e) refl in
      let (some_entry, absent) = swap_entry-absent s.swap_offset lo hi in
      let leads = LeadsTo-write_word s.vm pgdir addr e entry pmm mapped.leads mapped.apart in
      let leads_la : LeadsTo t.vm pgdir la e = λ f a c h. leads f a c (omega arith) in
      let directory : pdx la ≡ pdx addr = omega arith in
      let (w, done, leads_w, word_w) =
        swap_in-maps la e page' t pmm' leads_la (rw directory mapped.apart) taken (rw word read) in
      let full : (t.vm.mem e == 0) ≡ false = rw word some_entry in
      (
        t,
        record t { vm = w; mgr = m.map_swappable la page' t.mgr },
        swap_page-releases page addr e s pmm mapped wrote freed,
        word,
        rw word absent,
        refl,
        rw (leads_la fuel la true refl, full, done) refl,
        (λ f a c h. leads_w f a c (omega arith)),
        word_w,
        refl,
      )
