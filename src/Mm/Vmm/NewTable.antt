-- ===== src/Mm/Vmm/NewTable.antt =====
-- A new table for the directory of kern/mm/vmm.c.
use zonix.Prelude.{
  ltb, leb, ◌==◌, beq_self, beq_ne, Bool-cases, length, ℕ, ◌+◌, ◌*◌, ◌/◌, ◌%◌, ◌^◌, ◌≤◌, ◌<◌, ◌≡◌,
  refl, sym, ap, ◌∙◌, subst, ◌≢◌, ◌⊎◌, inl, inr, true, false, ◌&&◌, some, [], ◌∷◌, arith,
}
use zonix.Mm.Page.{Page, Pages, update}
use zonix.Mm.FirstFit.{Pmm}
use zonix.Mm.FirstFit.Blocks.{Blocks, count, total}
use zonix.Mm.FirstFit.Invariant.{IsFree, Described}
use zonix.Mm.FirstFit.OnePage.{Taken, take_page}
use zonix.Mm.PageTable.{Vm, page2pa, pte_addr, is_present, pdx, ptx, get_pte, new_table}
use zonix.Mm.PageTable.Insert.{alloc_pages-some}
use zonix.Mm.Vmm.Step.{slot_word, table, Present, Space, Walked, Walked-Present}

Described-ref :
    (p : Page) (pages : Pages) (bs : Blocks)
    → Described pages bs
    → Described (update p (λ d. record d { ref = 1 }) pages) bs
Described-ref p pages [] h = tt
Described-ref p pages (b ∷ bs) h = (ground arith, ground arith, Described-ref p pages bs h.2)

IsFree-ref :
    (p : Page) (s : Pmm) (bs : Blocks)
    → IsFree s bs
    → IsFree (record s { pages = update p (λ d. record d { ref = 1 }) s.pages }) bs
IsFree-ref p s bs h = record {
  ring = h.ring;
  described = Described-ref p s.pages bs h.described;
  counted = h.counted;
  fits = h.fits;
  apart = h.apart;
}

module _ (fuel pgdir lo hi v : ℕ) (s : Vm) (bs : Blocks) (sp : Space s pgdir lo hi bs)
    (at : lo ≤ v / 1024) (below : v / 1024 < hi) (top : hi ≤ 1023)
    (absent : is_present (slot_word s pgdir (v / 1024)) ≡ false) (tk : Taken fuel s.pmm bs) where
  abbrev d : ℕ
  d = v / 1024

  abbrev given : Vm
  given = record s { pmm = tk.final }

  abbrev made : Vm
  made = new_table (pgdir + 4 * (v / 1024)) tk.page given

  page_low : tk.page < 2 ^ 20
  page_low = sp.low tk.page tk.was_free

  page_not_directory : tk.page ≢ pgdir / 4096
  page_not_directory e = tk.was_free (subst (λ p. count p bs ≡ 0) (sym e) sp.directory)

  slot_made : slot_word made pgdir (v / 1024) ≡ 4096 * tk.page + 7
  unfolding new_table
  slot_made = let low = page_low in rw (beq_self (pgdir + 4 * (v / 1024))) (omega arith)

  -- A word that is neither the directory's for the table nor in the table keeps its value.
  made_other : (x : ℕ) → x ≢ pgdir + 4 * (v / 1024) → x / 4096 ≢ tk.page → made.mem x ≡ s.mem x
  unfolding new_table
  made_other x ne out =
      let low = page_low in
      let clear : (leb (page2pa tk.page) x && ltb x (page2pa tk.page + 4096)) ≡ false =
        ground arith in
      rw (beq_ne x (pgdir + 4 * (v / 1024)) ne, clear) refl

  slot_other : (i : ℕ) → i < 1024 → i ≢ v / 1024 → slot_word made pgdir i ≡ slot_word s pgdir i
  slot_other i small ne =
      let aligned = sp.aligned in
      let apart = page_not_directory in
      made_other (pgdir + 4 * i) (λ e. omega arith) (λ e. apart (omega arith))

  not_here : (i : ℕ) → Present s pgdir i → i ≢ v / 1024
  not_here i p e = let no = subst (λ k. is_present (slot_word s pgdir k) ≡ true) e p in cc

  entry_other :
      (i x : ℕ)
      → lo ≤ i
      → i < hi
      → x < 1024
      → Present s pgdir i
      → made.mem (table s pgdir i + 4 * x) ≡ s.mem (table s pgdir i + 4 * x)
  entry_other i x a b c p =
      let aligned = sp.aligned in
      let (taken, apart) = sp.used i a b p in
      made_other (table s pgdir i + 4 * x) (λ e. apart (omega arith))
        (λ e. tk.was_free (subst (λ q. count q bs ≡ 0) (omega arith) taken))

  made-table : table made pgdir (v / 1024) ≡ 4096 * tk.page
  made-table = let word = slot_made in omega arith

  made-Present : Present made pgdir (v / 1024)
  made-Present = rw slot_made (ground arith)

  table_other : (i : ℕ) → i < 1024 → i ≢ v / 1024 → table made pgdir i ≡ table s pgdir i
  table_other i small ne = ap pte_addr (slot_other i small ne)

  was-Present : (i : ℕ) → i < 1024 → i ≢ v / 1024 → Present made pgdir i → Present s pgdir i
  was-Present i small ne p = ap is_present (sym (slot_other i small ne)) ∙ p

  -- The new table is apart from each of the others.
  new_apart : (i : ℕ) → lo ≤ i → i < hi → Present s pgdir i → table s pgdir i ≢ 4096 * tk.page
  new_apart i a b p e = tk.was_free (subst (λ q. count q bs ≡ 0) (omega arith) (sp.used i a b p).0)

  made_used :
      (i : ℕ)
      → lo ≤ i
      → i < hi
      → Present made pgdir i
      → (count (table made pgdir i / 4096) tk.rest ≡ 0) × (table made pgdir i ≢ pgdir)
  made_used i a b p = elim (Bool-cases (i == v / 1024)) [
    | inl e ↦
        let here : i ≡ v / 1024 = ground arith in
        let there : table made pgdir i ≡ 4096 * tk.page = ap (table made pgdir) here ∙ made-table in
        let aligned = sp.aligned in
        let apart = page_not_directory in
        let number : tk.page ≡ table made pgdir i / 4096 = omega arith in
        (subst (λ q. count q tk.rest ≡ 0) number tk.not_free, (λ e. apart (omega arith)))
    | inr e ↦
        let ne : i ≢ v / 1024 = (λ k. ground arith) in
        let same = table_other i (omega arith) ne in
        let (free, apart) = sp.used i a b (was-Present i (omega arith) ne p) in
        rw same (omega (arith, tk.others (table s pgdir i / 4096), free), apart)
  ]

  made_apart :
      (i j : ℕ)
      → lo ≤ i
      → i < hi
      → lo ≤ j
      → j < hi
      → Present made pgdir i
      → Present made pgdir j
      → i ≢ j
      → table made pgdir i ≢ table made pgdir j
  made_apart i j a b a' b' p q ne same = elim (Bool-cases (i == v / 1024)) [
    | inl e ↦
        let here : i ≡ v / 1024 = ground arith in
        let other : j ≢ v / 1024 = (λ k. ne (here ∙ sym k)) in
        let there : table made pgdir i ≡ 4096 * tk.page = ap (table made pgdir) here ∙ made-table in
        new_apart j a' b' (was-Present j (omega arith) other q)
          (sym (table_other j (omega arith) other) ∙ sym same ∙ there)
    | inr e ↦
        let out : i ≢ v / 1024 = (λ k. ground arith) in
        let first = was-Present i (omega arith) out p in
        elim (Bool-cases (j == v / 1024)) [
          | inl f ↦
              let here : j ≡ v / 1024 = ground arith in
              let there : table made pgdir j ≡ 4096 * tk.page =
                ap (table made pgdir) here ∙ made-table in
              new_apart i a b first (sym (table_other i (omega arith) out) ∙ same ∙ there)
          | inr f ↦
              let other : j ≢ v / 1024 = (λ k. ground arith) in
              sp.apart i j a b a' b' first (was-Present j (omega arith) other q) ne
                (sym (table_other i (omega arith) out) ∙ same ∙ table_other j (omega arith) other)
        ]
  ]

  made_IsFree : IsFree made.pmm tk.rest
  unfolding new_table
  made_IsFree = IsFree-ref tk.page tk.final tk.rest tk.still_free

  made_Space : Space made pgdir lo hi tk.rest
  made_Space = record {
    inv = made_IsFree;
    aligned = sp.aligned;
    low = λ p n. sp.low p (λ e. n (omega (arith, tk.others p)));
    directory = omega (arith, tk.others (pgdir / 4096), sp.directory);
    used = made_used;
    apart = made_apart;
  }

  made_runs :
      get_pte fuel pgdir (4096 * v) true s
      ≡ some (some (table made pgdir (v / 1024) + 4 * (v % 1024)), made)
  unfolding get_pte
  made_runs =
      let directory : pdx (4096 * v) ≡ v / 1024 = omega arith in
      let entry : ptx (4096 * v) ≡ v % 1024 = omega arith in
      rw (directory, absent, alloc_pages-some fuel 1 s (some tk.page) tk.final tk.runs, entry) refl

  pub Walked-absent : Walked fuel pgdir lo hi v s bs
  Walked-absent = record {
    final = made;
    rest = tk.rest;
    runs = made_runs;
    space = made_Space;
    present = made-Present;
    kept = λ i x a b c p. (slot_other i (omega arith) (not_here i p), entry_other i x a b c p);
    cost = inr (absent, tk.fewer);
    shorter = tk.shorter;
  }

-- The walk to a page of the range finds a table or, if there is a free page, makes one.
pub walk :
    (fuel pgdir lo hi v : ℕ) (s : Vm) (bs : Blocks)
    → Space s pgdir lo hi bs
    → lo ≤ v / 1024
    → v / 1024 < hi
    → hi ≤ 1023
    → Present s pgdir (v / 1024) ⊎ (0 < total bs)
    → length bs < fuel
    → Walked fuel pgdir lo hi v s bs
walk fuel pgdir lo hi v s bs sp at below top supply enough =
    elim (Bool-cases (is_present (slot_word s pgdir (v / 1024)))) [
      | inl p ↦ Walked-Present fuel pgdir lo hi v s bs sp at below top p
      | inr absent ↦
          Walked-absent fuel pgdir lo hi v s bs sp at below top absent
            (take_page fuel s.pmm bs sp.inv (some_free supply absent) enough)
    ]
  where
    some_free :
        Present s pgdir (v / 1024) ⊎ (0 < total bs)
        → is_present (slot_word s pgdir (v / 1024)) ≡ false
        → 0 < total bs
    some_free (inl p) absent = cc
    some_free (inr f) absent = f
