-- ===== src/Mm/Vmm/Entry.antt =====
-- The write of one entry by `pgdir_init` of kern/mm/vmm.c.
use zonix.Prelude.{beq_self, beq_ne, ℕ, ◌+◌, ◌*◌, ◌≤◌, ◌<◌, ◌≡◌, refl, sym, ap, ◌∙◌, ◌≢◌, arith}
use zonix.Mm.FirstFit.Blocks.{Blocks}
use zonix.Mm.PageTable.{Vm, is_present, pte_addr, write_word}
use zonix.Mm.Vmm.Step.{slot_word, table, Present, Space}

-- The address of entry `x` of table `i`.
abbrev pub entry_at : Vm → ℕ → ℕ → ℕ → ℕ
entry_at s pgdir i x = table s pgdir i + 4 * x

module _ (pgdir lo hi i x w : ℕ) (u : Vm) (bs : Blocks) (sp : Space u pgdir lo hi bs) (at : lo ≤ i)
    (below : i < hi) (top : hi ≤ 1023) (small : x < 1024) (present : Present u pgdir i) where
  -- The state after the write of an entry.
  abbrev pub after : Vm
  after = record u { mem = write_word (entry_at u pgdir i x) w u.mem }

  pub slot_after : (j : ℕ) → j < 1024 → slot_word after pgdir j ≡ slot_word u pgdir j
  slot_after j b =
      let aligned = sp.aligned in
      let (free, apart) = sp.used i at below present in
      rw (beq_ne (pgdir + 4 * j) (entry_at u pgdir i x) (λ e. apart (omega arith))) refl

  table_after : (j : ℕ) → j < 1024 → table after pgdir j ≡ table u pgdir j
  table_after j b = ap pte_addr (slot_after j b)

  before_after : (j : ℕ) → j < 1024 → Present after pgdir j → Present u pgdir j
  before_after j b p = ap is_present (sym (slot_after j b)) ∙ p

  pub after_Space : Space after pgdir lo hi bs
  after_Space = record {
    inv = sp.inv;
    aligned = sp.aligned;
    low = sp.low;
    directory = sp.directory;
    used = λ j a b p.
        rw (table_after j (omega arith)) (sp.used j a b (before_after j (omega arith) p));
    apart = λ j k a b a' b' p q ne.
        rw (table_after j (omega arith), table_after k (omega arith))
          (sp.apart j k a b a' b' (before_after j (omega arith) p) (before_after k (omega arith) q)
            ne);
  }

  pub entry_after : after.mem (entry_at u pgdir i x) ≡ w
  entry_after = rw (beq_self (entry_at u pgdir i x)) refl

  -- Other entries are kept.
  pub others_after :
      (j y : ℕ)
      → lo ≤ j
      → j < hi
      → y < 1024
      → Present u pgdir j
      → (j ≡ i → y ≢ x)
      → after.mem (entry_at u pgdir j y) ≡ u.mem (entry_at u pgdir j y)
  others_after j y a b c p ne =
      rw (beq_ne (entry_at u pgdir j y) (entry_at u pgdir i x) (other ne)) refl
    where
      other : (j ≡ i → y ≢ x) → entry_at u pgdir j y ≢ entry_at u pgdir i x
      other ne e =
          sp.apart j i a b at below p present
            (λ k. ne k (let same = ap (table u pgdir) k in omega arith)) (omega arith)
