-- ===== src/Mm/Vmm/Step.antt =====
-- One page of `pgdir_init` of kern/mm/vmm.c.
use zonix.Prelude.{
  length, ℕ, ◌+◌, ◌*◌, ◌/◌, ◌%◌, ◌^◌, ◌≤◌, ◌<◌, ◌≡◌, refl, ◌≢◌, ◌⊎◌, inl, true, false, some, arith,
}
use zonix.Mm.Page.{Page}
use zonix.Mm.FirstFit.Blocks.{Blocks, count, total}
use zonix.Mm.FirstFit.Invariant.{IsFree}
use zonix.Mm.PageTable.{Vm, pte_addr, is_present, pdx, ptx, get_pte}
use zonix.Mm.PageTable.Walk.{get_pte_present}

-- The word of the directory for the table `i`, and the address of that table.
abbrev pub slot_word : Vm → ℕ → ℕ → ℕ
slot_word s pgdir i = s.mem (pgdir + 4 * i)

abbrev pub table : Vm → ℕ → ℕ → ℕ
table s pgdir i = pte_addr (slot_word s pgdir i)

abbrev pub Present : Vm → ℕ → ℕ → Type 0
Present s pgdir i = is_present (slot_word s pgdir i) ≡ true

-- The directory is one page; the tables from `lo` up to `hi` that are there are pages of their own, and none of
-- these pages is free.
pub record Space (s : Vm) (pgdir lo hi : ℕ) (bs : Blocks) : Type 0 where
  pub inv : IsFree s.pmm bs
  pub aligned : pgdir % 4096 ≡ 0
  pub low : (p : Page) → count p bs ≢ 0 → p < 2 ^ 20
  pub directory : count (pgdir / 4096) bs ≡ 0
  pub used :
      (i : ℕ)
      → lo ≤ i
      → i < hi
      → Present s pgdir i
      → (count (table s pgdir i / 4096) bs ≡ 0) × (table s pgdir i ≢ pgdir)
  pub apart :
      (i j : ℕ)
      → lo ≤ i
      → i < hi
      → lo ≤ j
      → j < hi
      → Present s pgdir i
      → Present s pgdir j
      → i ≢ j
      → table s pgdir i ≢ table s pgdir j

-- Every table of `s` is still there in `t` with the same entries.
abbrev pub Kept : Vm → Vm → ℕ → ℕ → ℕ → Type 0
Kept s t pgdir lo hi =
    (i x : ℕ)
    → lo ≤ i
    → i < hi
    → x < 1024
    → Present s pgdir i
    → (slot_word t pgdir i ≡ slot_word s pgdir i)
      × (t.mem (table s pgdir i + 4 * x) ≡ s.mem (table s pgdir i + 4 * x))

-- What the walk of `get_pte` leaves.
pub record Walked (fuel pgdir lo hi v : ℕ) (s : Vm) (bs : Blocks) : Type 0 where
  pub final : Vm
  pub rest : Blocks
  pub runs :
      get_pte fuel pgdir (4096 * v) true s
      ≡ some (some (table final pgdir (v / 1024) + 4 * (v % 1024)), final)
  pub space : Space final pgdir lo hi rest
  pub present : Present final pgdir (v / 1024)
  pub kept : Kept s final pgdir lo hi
  pub cost :
      (Present s pgdir (v / 1024) × (total rest ≡ total bs))
      ⊎ ((is_present (slot_word s pgdir (v / 1024)) ≡ false) × (total rest + 1 ≡ total bs))
  pub shorter : length rest ≤ length bs

module _ (fuel pgdir lo hi v : ℕ) (s : Vm) (bs : Blocks) (sp : Space s pgdir lo hi bs)
    (at : lo ≤ v / 1024) (below : v / 1024 < hi) (top : hi ≤ 1023) where
  abbrev d : ℕ
  d = v / 1024

  pub Walked-Present : Present s pgdir (v / 1024) → Walked fuel pgdir lo hi v s bs
  Walked-Present p =
      let directory : pdx (4096 * v) ≡ v / 1024 = omega arith in
      let entry : ptx (4096 * v) ≡ v % 1024 = omega arith in
      let walk = get_pte_present fuel pgdir (4096 * v) true s (rw directory p) in
      record {
        final = s;
        rest = bs;
        runs = rw (directory, entry) at walk;
        space = sp;
        present = p;
        kept = λ i x a b c q. (refl, refl);
        cost = inl (p, refl);
        shorter = omega arith;
      }
