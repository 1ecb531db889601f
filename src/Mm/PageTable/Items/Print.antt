-- ===== src/Mm/PageTable/Items/Print.antt =====
-- The printout of the page tables, `print_pgdir` of kern/mm/vmm.c. The two tables are given by their words.
use zonix.Prelude.{
  ◌==◌, if◌then◌else◌, codes, ℕ, zero, suc, ◌-◌, ◌*◌, ◌/◌, ◌%◌, ◌^◌, Option, none, some, [], ◌∷◌,
  ◌++◌,
}
use Prim.Native.String.{String}
use zonix.Cons.Stdio.{Text, word, text, cprintf}
use zonix.Mm.PageTable.Items.{get_pgtable_items}

unfoldable pub perm2str : ℕ → Text
perm2str perm =
    (if perm / 4 % 2 == 1 then b'u' else b'-')
    ∷ (if perm % 2 == 1 then b'r' else b'-')
    ∷ (if perm / 2 % 2 == 1 then b'w' else b'-')
    ∷ []

-- The line of a run of entries from `left` to `right`, each for `size` bytes; the addresses wrap.
unfoldable pub item_line : String → ℕ → ℕ → ℕ → ℕ → Text
item_line format size perm left right = cprintf (codes format) (
    word (right - left)
    ∷ word (left * size % 2 ^ 32)
    ∷ word (right * size % 2 ^ 32)
    ∷ word ((right - left) * size % 2 ^ 32)
    ∷ text (perm2str perm)
    ∷ [])

abbrev pub and_lines : Text → Option Text → Option Text
and_lines line none = none
and_lines line (some rest) = some (line ++ rest)

-- The inner loop from entry `r` to `limit`; `none` is the end of the fuel.
unfoldable pub table_lines : ℕ → ℕ → ℕ → (ℕ → ℕ) → Option Text
table_lines zero r limit vpt = none
table_lines (suc fuel) r limit vpt = elim (get_pgtable_items r limit vpt) [
  | none ↦ some []
  | some (perm, left, right) ↦
      and_lines (item_line "  |-- PTE(%05x) %08x-%08x %08x %s\n" 4096 perm left right)
        (table_lines fuel right limit vpt)
]

abbrev pub and_more : Option Text → Option Text → Option Text
and_more none rest = none
and_more (some lines) rest = and_lines lines rest

-- The outer loop, over the entries of the directory.
unfoldable pub directory_lines : ℕ → ℕ → ℕ → (ℕ → ℕ) → (ℕ → ℕ) → Option Text
directory_lines zero fuel right vpd vpt = none
directory_lines (suc turns) fuel right vpd vpt = elim (get_pgtable_items right 1024 vpd) [
  | none ↦ some []
  | some (perm, left, right) ↦
      and_lines (item_line "PDE(%03x) %08x-%08x %08x %s\n" (2 ^ 22) perm left right) (
        and_more (table_lines fuel (left * 1024) (right * 1024) vpt)
          (directory_lines turns fuel right vpd vpt))
]

abbrev pub and_end : Option Text → Option Text
and_end none = none
and_end (some lines) = some (
    cprintf (codes "-------------------- BEGIN --------------------\n") []
    ++ lines
    ++ cprintf (codes "--------------------- END ---------------------\n") [])

unfoldable pub print_pgdir : ℕ → ℕ → (ℕ → ℕ) → (ℕ → ℕ) → Option Text
print_pgdir turns fuel vpd vpt = and_end (directory_lines turns fuel 0 vpd vpt)
