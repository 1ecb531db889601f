-- ===== src/Mm/Vmm/Shown.antt =====
-- What the page tables of kern/mm/vmm.c show of a range, and what a step keeps of it.
use Prim.Native.Nat.{bit_or}
use zonix.Prelude.{
  ℕ, ◌+◌, ◌*◌, ◌/◌, ◌%◌, ◌≤◌, ◌<◌, ◌≡◌, sym, ap, ◌∙◌, subst, ◌⊎◌, inl, inr, false, arith,
}
use native.Mathlib.Decide.{dec_lt}
use zonix.Mm.FirstFit.Blocks.{Blocks, total}
use zonix.Mm.PageTable.{Vm, is_present, pte_addr}
use zonix.Mm.Vmm.Step.{slot_word, Present}
use zonix.Mm.Vmm.Entry.{entry_at}

-- The entry for page `v` of addresses holds page `q` of memory with the permissions.
abbrev pub Shows : Vm → ℕ → ℕ → ℕ → ℕ → Type 0
Shows s pgdir v q perm =
    Present s pgdir (v / 1024)
    × (s.mem (entry_at s pgdir (v / 1024) (v % 1024)) ≡ bit_or (bit_or (4096 * q) 1) perm)

-- There are pages enough for the tables from that of page `v` on, which may be there.
abbrev pub Supply : Vm → ℕ → ℕ → ℕ → Blocks → Type 0
Supply s pgdir hi v bs =
    (hi ≤ v / 1024 + total bs) ⊎ (Present s pgdir (v / 1024) × (hi ≤ v / 1024 + 1 + total bs))

-- Every table of `s` is still there, with the same entries for the pages below `v`.
abbrev pub Below : Vm → Vm → ℕ → ℕ → ℕ → ℕ → Type 0
Below s t pgdir lo hi v =
    (i x : ℕ)
    → lo ≤ i
    → i < hi
    → x < 1024
    → i * 1024 + x < v
    → Present s pgdir i
    → (slot_word t pgdir i ≡ slot_word s pgdir i)
      × (t.mem (entry_at s pgdir i x) ≡ s.mem (entry_at s pgdir i x))

pub Supply-walk :
    (s : Vm) (pgdir hi v : ℕ) (bs : Blocks)
    → v / 1024 < hi
    → Supply s pgdir hi v bs
    → Present s pgdir (v / 1024) ⊎ (0 < total bs)
Supply-walk s pgdir hi v bs b (inl h) = inr (omega arith)
Supply-walk s pgdir hi v bs b (inr (p, h)) = inl p

pub Supply-left :
    (s : Vm) (pgdir hi v : ℕ) (bs rest : Blocks)
    → Supply s pgdir hi v bs
    → (Present s pgdir (v / 1024) × (total rest ≡ total bs))
      ⊎ ((is_present (slot_word s pgdir (v / 1024)) ≡ false) × (total rest + 1 ≡ total bs))
    → hi ≤ v / 1024 + 1 + total rest
Supply-left s pgdir hi v bs rest (inl h) (inl (p, e)) = omega arith
Supply-left s pgdir hi v bs rest (inl h) (inr (a, e)) = omega arith
Supply-left s pgdir hi v bs rest (inr (p, h)) (inl (p', e)) = omega arith
Supply-left s pgdir hi v bs rest (inr (p, h)) (inr (a, e)) = cc

pub Supply-next :
    (t : Vm) (pgdir hi v : ℕ) (rest : Blocks)
    → Present t pgdir (v / 1024)
    → hi ≤ v / 1024 + 1 + total rest
    → Supply t pgdir hi (v + 1) rest
Supply-next t pgdir hi v rest p h = elim (dec_lt (v % 1024) 1023) [
  | yes inside ↦
      let same : v / 1024 ≡ (v + 1) / 1024 = omega arith in
      inr (subst (λ i. Present t pgdir i) same p, omega arith)
  | no last ↦ inl (omega arith)
]

pub Below-trans :
    (s t f : Vm) (pgdir lo hi v : ℕ)
    → Below s t pgdir lo hi v
    → Below t f pgdir lo hi v
    → Below s f pgdir lo hi v
Below-trans s t f pgdir lo hi v one two i x a b c l p =
    let (slot, entry) = one i x a b c l p in
    let (slot', entry') = two i x a b c l (ap is_present slot ∙ p) in
    (
      slot' ∙ slot,
      ap (λ e. f.mem (pte_addr e + 4 * x)) (sym slot)
          ∙ entry'
          ∙ ap (λ e. t.mem (pte_addr e + 4 * x)) slot
          ∙ entry,
    )

pub Shows-Below :
    (t f : Vm) (pgdir lo hi v v' q perm : ℕ)
    → Below t f pgdir lo hi v'
    → v < v'
    → lo ≤ v / 1024
    → v / 1024 < hi
    → Shows t pgdir v q perm
    → Shows f pgdir v q perm
Shows-Below t f pgdir lo hi v v' q perm kept l a b (p, e) =
    let (slot, entry) = kept (v / 1024) (v % 1024) a b (omega arith) (omega arith) p in
    (ap is_present slot ∙ p, ap (λ w. f.mem (pte_addr w + 4 * (v % 1024))) slot ∙ entry ∙ e)
