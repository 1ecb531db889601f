-- ===== src/Mm/Vmm/Kernel.antt =====
-- `vmm_init` of kern/mm/vmm.c maps the memory of the kernel.
use Prim.Native.Nat.{bit_or}
use zonix.Prelude.{
  beq_ne, length, bit_or_one, bit_or_two, ℕ, ◌+◌, ◌*◌, ◌/◌, ◌%◌, ◌≤◌, ◌<◌, ◌≡◌, refl, sym, ap, ◌∙◌,
  subst, inl, some, arith,
}
use zonix.Links.{Ptr, Links, list_init}
use zonix.Mm.FirstFit.Blocks.{Blocks, total}
use zonix.Mm.PageTable.{Vm, is_present, pdx, ptx, table_entry}
use zonix.Mm.PageTable.Insert.{LeadsTo, LeadsTo-same}
use zonix.Mm.Setup.{kernel_base, round_up, round_down}
use zonix.Mm.Vmm.{map_self, with_mm, mm_init, pgdir_init, vmm_init, kernel_mem_size, vpt}
use zonix.Mm.Vmm.Step.{slot_word, Present, Space}
use zonix.Mm.Vmm.Entry.{entry_at}
use zonix.Mm.Vmm.Range.{fill}
use zonix.Mm.Vmm.Shown.{Shows}

-- The directory's own entry is none of those of the kernel.
slot-map_self :
    (boot_pgdir i : ℕ) (s : Vm)
    → i < 992
    → slot_word (map_self boot_pgdir s) boot_pgdir i ≡ slot_word s boot_pgdir i
slot-map_self boot_pgdir i s b =
    rw (beq_ne (boot_pgdir + 4 * i) (boot_pgdir + 4 * pdx vpt) (λ e. omega arith)) refl

Space-map_self :
    (boot_pgdir : ℕ) (s : Vm) (bs : Blocks)
    → Space s boot_pgdir 768 992 bs
    → Space (map_self boot_pgdir s) boot_pgdir 768 992 bs
Space-map_self boot_pgdir s bs sp = record {
  inv = sp.inv;
  aligned = sp.aligned;
  low = sp.low;
  directory = sp.directory;
  used = λ i a b p.
      rw (slot-map_self boot_pgdir i s b)
        (sp.used i a b (ap is_present (sym (slot-map_self boot_pgdir i s b)) ∙ p));
  apart = λ i j a b a' b' p q ne.
      rw (slot-map_self boot_pgdir i s b, slot-map_self boot_pgdir j s b')
        (sp.apart i j a b a' b' (ap is_present (sym (slot-map_self boot_pgdir i s b)) ∙ p)
          (ap is_present (sym (slot-map_self boot_pgdir j s b')) ∙ q) ne);
}

kernel_word : (k : ℕ) → bit_or (bit_or (4096 * k) 1) 2 ≡ 4096 * k + 3
kernel_word k =
    let one = bit_or_one (4096 * k) (omega arith) in
    rw one (bit_or_two (4096 * k + 1) (omega arith) ∙ omega arith)

-- What an entry shows, for a walk.
Shows-LeadsTo :
    (t : Vm) (pgdir k : ℕ)
    → k < 229376
    → Shows t pgdir (786432 + k) (0 + k) 2
    → (e : ℕ) × LeadsTo t pgdir (kernel_base + 4096 * k) e × (t.mem e ≡ 4096 * k + 3)
Shows-LeadsTo t pgdir k b (p, e) =
    let directory : (786432 + k) / 1024 ≡ pdx (kernel_base + 4096 * k) = omega arith in
    let entry : ptx (kernel_base + 4096 * k) ≡ (786432 + k) % 1024 = omega arith in
    let present = subst (λ i. Present t pgdir i) directory p in
    let place : entry_at t pgdir ((786432 + k) / 1024) ((786432 + k) % 1024)
        ≡ table_entry (pgdir + 4 * pdx (kernel_base + 4096 * k)) (kernel_base + 4096 * k) t =
      rw (directory, entry) refl in
    (
      entry_at t pgdir ((786432 + k) / 1024) ((786432 + k) % 1024),
      LeadsTo-same t t pgdir (kernel_base + 4096 * k) _ present place refl,
      e ∙ kernel_word (0 + k) ∙ omega arith,
    )

-- Let the directory be one page and its tables for the kernel's 896 MiB, those that are there already, be pages
-- apart from it and from each other, none of them free; let at least 224 pages be free, and the fuel be
-- more than the number of free blocks. Then `vmm_init` returns, `init_mm` has the directory and no areas, and
-- every walk to an address of the k-th page from the kernel's base, for each page of the 896 MiB, gives an
-- entry that is present and writable and holds the k-th page of physical memory.
pub vmm_init-maps :
    (fuel boot_pgdir : ℕ) (mmap_list : Ptr) (s : Vm) (l : Links) (bs : Blocks)
    → Space s boot_pgdir 768 992 bs
    → 224 ≤ total bs
    → length bs < fuel
    → (t : Vm) × (vmm_init fuel boot_pgdir mmap_list s l
        ≡ some (t, record { pgdir = boot_pgdir; map_count = 0 }, list_init mmap_list l))
      × ((k : ℕ)
          → k < kernel_mem_size / 4096
          → (e : ℕ) × LeadsTo t boot_pgdir (kernel_base + 4096 * k) e × (t.mem e ≡ 4096 * k + 3))
unfolding vmm_init pgdir_init mm_init round_up round_down
vmm_init-maps fuel boot_pgdir mmap_list s l bs sp supply enough =
    let f =
      fill fuel boot_pgdir 768 992 786432 229376 0 2 (map_self boot_pgdir s) bs
        (Space-map_self boot_pgdir s bs sp) (omega arith) (omega arith) (omega arith) (omega arith)
        (inl (omega arith)) enough in
    (
      f.final,
      ap (with_mm (mm_init mmap_list l) boot_pgdir) f.runs,
      (λ k b. Shows-LeadsTo f.final boot_pgdir k b (f.shows k b)),
    )
