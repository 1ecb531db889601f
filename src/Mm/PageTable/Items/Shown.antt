-- ===== src/Mm/PageTable/Items/Shown.antt =====
-- What the printout of kern/mm/vmm.c shows of the page tables.
use zonix.Prelude.{ℕ, ◌*◌, ◌^◌, ◌≡◌, Option, none, some, List, [], ◌∷◌, ◌++◌}
use Prim.Native.String.{String}
use zonix.Cons.Stdio.{Text}
use zonix.Mm.PageTable.Items.Runs.{Run}
use zonix.Mm.PageTable.Items.Print.{item_line, table_lines, and_lines, directory_lines, and_more}

-- Permissions, and the first entry and the one behind the last.
abbrev pub Item : Type 0
Item = ℕ × ℕ × ℕ

-- The items are all the runs of the table from `start` up to `limit`, in order: no present entry is left
-- out, and no two neighbours could be one run.
abbrev pub RunList : (ℕ → ℕ) → ℕ → ℕ → List Item → Type 0
RunList table start limit [] = Run table start limit none
RunList table start limit (d ∷ ds) = Run table start limit (some d) × RunList table d.2 limit ds

abbrev pub pte_format : String
pte_format = "  |-- PTE(%05x) %08x-%08x %08x %s\n"

abbrev pub pde_format : String
pde_format = "PDE(%03x) %08x-%08x %08x %s\n"

abbrev pub table_text : List Item → Text
table_text [] = []
table_text (d ∷ ds) = item_line pte_format 4096 d.0 d.1 d.2 ++ table_text ds

-- The runs of the directory, each with the runs of the tables that it covers.
abbrev pub RunTree : (ℕ → ℕ) → (ℕ → ℕ) → ℕ → List (Item × List Item) → Type 0
RunTree vpd vpt start [] = Run vpd start 1024 none
RunTree vpd vpt start (d ∷ ds) =
    Run vpd start 1024 (some d.0)
    × RunList vpt (d.0.1 * 1024) (d.0.2 * 1024) d.1
    × RunTree vpd vpt d.0.2 ds

abbrev pub directory_text : List (Item × List Item) → Text
directory_text [] = []
directory_text (d ∷ ds) =
    item_line pde_format (2 ^ 22) d.0.0 d.0.1 d.0.2 ++ (table_text d.1 ++ directory_text ds)

-- A turn of the inner loop, by what the scan gives.
abbrev table_turn : ℕ → ℕ → (ℕ → ℕ) → Option Item → Option Text
table_turn fuel limit vpt o = elim o [
  | none ↦ some []
  | some (perm, left, right) ↦
      and_lines (item_line pte_format 4096 perm left right) (table_lines fuel right limit vpt)
]

abbrev Shown : ℕ → ℕ → ℕ → (ℕ → ℕ) → Type 0
Shown fuel r limit vpt =
    (ds : List Item) × (table_lines fuel r limit vpt ≡ some (table_text ds))
    × RunList vpt r limit ds

abbrev directory_turn : ℕ → ℕ → (ℕ → ℕ) → (ℕ → ℕ) → Option Item → Option Text
directory_turn turns fuel vpd vpt o = elim o [
  | none ↦ some []
  | some (perm, left, right) ↦ and_lines (item_line pde_format (2 ^ 22) perm left right) (
      and_more (table_lines fuel (left * 1024) (right * 1024) vpt)
        (directory_lines turns fuel right vpd vpt))
]

abbrev ShownTree : ℕ → ℕ → ℕ → (ℕ → ℕ) → (ℕ → ℕ) → Type 0
ShownTree turns fuel r vpd vpt =
    (ds : List (Item × List Item)) × (directory_lines turns fuel r vpd vpt
      ≡ some (directory_text ds))
    × RunTree vpd vpt r ds
