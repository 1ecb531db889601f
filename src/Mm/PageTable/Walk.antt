-- ===== src/Mm/PageTable/Walk.antt =====
-- The walk of the page tables of kern/mm/pmm.c.
use zonix.Prelude.{
  beq_self, Bool-cases, ℕ, ◌+◌, ◌*◌, ◌%◌, ◌^◌, ◌<◌, ◌≡◌, refl, sym, ap, ◌∙◌, subst, inl, inr, Bool,
  true, false, Option, none, some, arith,
}
use zonix.Mm.Page.{Page}
use zonix.Mm.PageTable.{
  Vm, page2pa, pa2page, pdx, pte_addr, is_present, alloc_pages, new_table, table_entry, add_table,
  get_pte,
}

page2pa-aligned : (page : Page) → pte_addr (page2pa page + 7) ≡ page2pa page
page2pa-aligned page = omega arith

-- The entry of a page directory for a table that was just added is present, and leads to the page.
new_table-present :
    (pdep : ℕ) (page : Page) (s : Vm) → is_present ((new_table pdep page s).mem pdep) ≡ true
unfolding new_table
new_table-present pdep page s =
    let odd : (page2pa page + 7) % 2 ≡ 1 = omega arith in rw (beq_self pdep, odd) refl

pub get_pte_present :
    (fuel pgdir la : ℕ) (create : Bool) (s : Vm)
    → is_present (s.mem (pgdir + 4 * pdx la)) ≡ true
    → get_pte fuel pgdir la create s ≡ some (some (table_entry (pgdir + 4 * pdx la) la s), s)
unfolding get_pte
get_pte_present fuel pgdir la create s h = rw h refl

add_table-present :
    (pdep la e : ℕ) (t : Vm) (o : Option (Option Page × Vm))
    → add_table pdep la o ≡ some (some e, t)
    → is_present (t.mem pdep) ≡ true × (e ≡ table_entry pdep la t)
add_table-present pdep la e t none h = cc
add_table-present pdep la e t (some (none, s)) h = cc
add_table-present pdep la e t (some (some page, s)) h =
    let state : new_table pdep page s ≡ t = cc in
    let entry : table_entry pdep la (new_table pdep page s) ≡ e = cc in
    (
      subst (λ u. is_present (u.mem pdep) ≡ true) state (new_table-present pdep page s),
      sym entry ∙ ap (table_entry pdep la) state,
    )

-- What a walk that found or made an entry leaves: the table is present, and the entry is in it.
pub get_pte-present :
    (fuel pgdir la e : ℕ) (create : Bool) (s t : Vm)
    → get_pte fuel pgdir la create s ≡ some (some e, t)
    → is_present (t.mem (pgdir + 4 * pdx la)) ≡ true × (e ≡ table_entry (pgdir + 4 * pdx la) la t)
get_pte-present fuel pgdir la e create s t h =
    elim (Bool-cases (is_present (s.mem (pgdir + 4 * pdx la)))) [
      | inl p ↦
          let here = sym (get_pte_present fuel pgdir la create s p) ∙ h in
          let state : s ≡ t = cc in
          let entry : table_entry (pgdir + 4 * pdx la) la s ≡ e = cc in
          (
            subst (λ u. is_present (u.mem (pgdir + 4 * pdx la)) ≡ true) state p,
            sym entry ∙ ap (table_entry (pgdir + 4 * pdx la) la) state,
          )
      | inr p ↦
          add_table-present (pgdir + 4 * pdx la) la e t (alloc_pages fuel 1 s) (missing create p h)
    ]
  where
    missing :
        (create : Bool)
        → is_present (s.mem (pgdir + 4 * pdx la)) ≡ false
        → get_pte fuel pgdir la create s ≡ some (some e, t)
        → add_table (pgdir + 4 * pdx la) la (alloc_pages fuel 1 s) ≡ some (some e, t)
    missing true p h = unfold get_pte in rw p at h
    missing false p h = unfold get_pte in let no = rw p at h in cc

-- When `get_pte` gives an entry, a second walk, whether it may create or not, gives the same entry and
-- changes nothing.
pub get_pte-get_pte :
    (fuel fuel' pgdir la e : ℕ) (create create' : Bool) (s t : Vm)
    → get_pte fuel pgdir la create s ≡ some (some e, t)
    → get_pte fuel' pgdir la create' t ≡ some (some e, t)
get_pte-get_pte fuel fuel' pgdir la e create create' s t h =
    let (present, entry) = get_pte-present fuel pgdir la e create s t h in
    get_pte_present fuel' pgdir la create' t present ∙ ap (λ a. some (some a, t)) (sym entry)

-- A page of the first 2 ^ 20 is found again by its address.
pub pa2page-page2pa : (page : Page) → page < 2 ^ 20 → pa2page (page2pa page) ≡ page
pa2page-page2pa page h = omega arith
