-- ===== src/Mm/PageTable/Items.antt =====
-- kern/mm/vmm.c: the scan of a page table for the entries that print_pgdir shows.
pub mod Runs
pub mod Print
pub mod Shown
use zonix.Prelude.{ltb, leb, ◌==◌, if◌then◌else◌, ℕ, zero, suc, ◌+◌, ◌-◌, ◌%◌, Option, none, some}
use zonix.Mm.PageTable.{is_present}

-- `table[i] & PTE_USER`
abbrev pub perm_at : (ℕ → ℕ) → ℕ → ℕ
perm_at table i = table i % 8

-- The first loop, with `n` entries to go: the first entry that is present.
unfoldable pub skip_absent : (ℕ → ℕ) → ℕ → ℕ → ℕ
skip_absent table start zero = start
skip_absent table start (suc n) =
    let rest = skip_absent table (start + 1) n in if is_present (table start) then start else rest

-- The second loop: the first entry with other permissions.
unfoldable pub run_end : (ℕ → ℕ) → ℕ → ℕ → ℕ → ℕ
run_end table perm start zero = start
run_end table perm start (suc n) =
    let rest = run_end table perm (start + 1) n in
    if perm_at table start == perm then rest else start

-- The permissions and the bounds of the next run, or none for the result 0.
unfoldable pub get_pgtable_items : ℕ → ℕ → (ℕ → ℕ) → Option (ℕ × ℕ × ℕ)
get_pgtable_items start limit table =
    let left = skip_absent table start (limit - start) in
    let perm = perm_at table left in
    if leb limit start
    then none
    else if ltb left limit
    then some (perm, left, run_end table perm (left + 1) (limit - (left + 1)))
    else none
