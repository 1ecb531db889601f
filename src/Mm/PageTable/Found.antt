-- ===== src/Mm/PageTable/Found.antt =====
-- The search for a page's address in kern/mm/swap.c, after a write to an entry of another page.
use zonix.Prelude.{
  ◌==◌, if◌then◌else◌, beq_ne, ℕ, zero, suc, ◌+◌, ◌*◌, ◌^◌, ◌≤◌, ◌<◌, ◌≡◌, refl, sym, ap, ◌∙◌, ◌≢◌,
  Bool, false, ◌&&◌, Option, none, some, arith,
}
use zonix.Mm.Page.{Page}
use zonix.Mm.PageTable.{
  page2pa, pte_addr, is_present, write_word, find_in_table, find_in_directory, find_vaddr_for_page,
}

-- The test of the inner loop.
abbrev pub maps : ℕ → ℕ → Bool
maps pa pte = is_present pte && (pte_addr pte == pa)

find_in_table-same :
    (pa pt i n : ℕ) (mem mem' : ℕ → ℕ)
    → ((x : ℕ) → maps pa (mem' x) ≡ maps pa (mem x))
    → find_in_table pa pt i n mem' ≡ find_in_table pa pt i n mem
unfolding find_in_table
find_in_table-same pa pt i zero mem mem' h = refl
find_in_table-same pa pt i (suc n) mem mem' h =
    rw (h (pt + 4 * i), find_in_table-same pa pt (i + 1) n mem mem' h) refl

-- The directory is the page at `pgdir`; the word `e` is not in it.
abbrev pub NotIn : ℕ → ℕ → Type 0
NotIn pgdir e = (i : ℕ) → i < 1024 → e ≢ pgdir + 4 * i

-- A turn of the outer loop.
abbrev turn : ℕ → Option ℕ → ℕ → ℕ
turn i o rest = elim o [ some j ↦ i * 2 ^ 22 + j * 2 ^ 12 | none ↦ rest ]

find_in_directory-same :
    (pa pgdir i n : ℕ) (mem mem' : ℕ → ℕ)
    → i + n ≤ 1024
    → ((x : ℕ) → maps pa (mem' x) ≡ maps pa (mem x))
    → ((j : ℕ) → j < 1024 → mem' (pgdir + 4 * j) ≡ mem (pgdir + 4 * j))
    → find_in_directory pa pgdir i n mem' ≡ find_in_directory pa pgdir i n mem
unfolding find_in_directory
find_in_directory-same pa pgdir i zero mem mem' b h d = refl
find_in_directory-same pa pgdir i (suc n) mem mem' b h d =
    let slot = d i (omega arith) in
    let table = find_in_table-same pa (pte_addr (mem (pgdir + 4 * i))) 0 1024 mem mem' h in
    let later = find_in_directory-same pa pgdir (i + 1) n mem mem' (omega arith) h d in
    let rest = find_in_directory pa pgdir (i + 1) n mem' in
    let pde = mem (pgdir + 4 * i) in
    ap (λ p. turn i (if is_present p then find_in_table pa (pte_addr p) 0 1024 mem' else none) rest)
      slot
    ∙ ap (λ t. turn i (if is_present pde then t else none) rest) table
    ∙ ap (turn i (if is_present pde then find_in_table pa (pte_addr pde) 0 1024 mem else none))
        later

-- A write outside of the directory, over a word that did not map the page and by one that does not, leaves the page where it is found.
pub find_vaddr_for_page-write_word :
    (pgdir : ℕ) (page : Page) (e v : ℕ) (mem : ℕ → ℕ)
    → NotIn pgdir e
    → maps (page2pa page) (mem e) ≡ false
    → is_present v ≡ false
    → find_vaddr_for_page pgdir page (write_word e v mem) ≡ find_vaddr_for_page pgdir page mem
unfolding find_vaddr_for_page
find_vaddr_for_page-write_word pgdir page e v mem out old new =
    find_in_directory-same (page2pa page) pgdir 0 1024 mem (write_word e v mem) (omega arith)
      (λ x. ground arith) (λ j b. rw (beq_ne (pgdir + 4 * j) e (λ q. out j b (sym q))) refl)
