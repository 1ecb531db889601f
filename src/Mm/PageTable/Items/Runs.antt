-- ===== src/Mm/PageTable/Items/Runs.antt =====
-- What the scan of kern/mm/vmm.c finds.
use zonix.Prelude.{
  ltb, leb, ◌==◌, eq-beq, Bool-cases, ℕ, zero, suc, ◌+◌, ◌-◌, ◌≤◌, ◌<◌, ◌≡◌, sym, ap, subst, ◌≢◌,
  inl, inr, true, false, Option, none, some, arith,
}
use zonix.Mm.PageTable.{is_present}
use zonix.Mm.PageTable.Items.{perm_at, skip_absent, run_end, get_pgtable_items}

-- No entry from `start` up to `stop` is present.
abbrev pub AllAbsent : (ℕ → ℕ) → ℕ → ℕ → Type 0
AllAbsent table start stop = (i : ℕ) → start ≤ i → i < stop → is_present (table i) ≡ false

skip_absent-AllAbsent :
    (table : ℕ → ℕ) (start n : ℕ)
    → (start ≤ skip_absent table start n)
      × (skip_absent table start n ≤ start + n)
      × AllAbsent table start (skip_absent table start n)
      × (skip_absent table start n < start + n
          → is_present (table (skip_absent table start n)) ≡ true)
unfolding skip_absent
skip_absent-AllAbsent table start zero =
    (ground arith, ground arith, λ i a b. ground arith, λ h. ground arith)
skip_absent-AllAbsent table start (suc n) =
    let (low, high, absent, found) = skip_absent-AllAbsent table (start + 1) n in
    elim (Bool-cases (is_present (table start))) [
      | inl e ↦ rw e (ground arith, ground arith, λ i a b. ground arith, λ h. e)
      | inr e ↦
          rw e
            (ground arith, ground arith, λ i a b. later i a b e absent, λ h. found (ground arith))
    ]
  where
    later :
        (i : ℕ)
        → start ≤ i
        → i < skip_absent table (start + 1) n
        → is_present (table start) ≡ false
        → AllAbsent table (start + 1) (skip_absent table (start + 1) n)
        → is_present (table i) ≡ false
    later i a b e absent = elim (Bool-cases (i == start)) [
      | inl same ↦ subst (λ j. is_present (table j) ≡ false) (sym (eq-beq i start same)) e
      | inr other ↦ absent i (ground arith) b
    ]

-- All entries from `start` up to `stop` have the permissions.
abbrev pub AllPerm : (ℕ → ℕ) → ℕ → ℕ → ℕ → Type 0
AllPerm table perm start stop = (i : ℕ) → start ≤ i → i < stop → perm_at table i ≡ perm

run_end-AllPerm :
    (table : ℕ → ℕ) (perm start n : ℕ)
    → (start ≤ run_end table perm start n)
      × (run_end table perm start n ≤ start + n)
      × AllPerm table perm start (run_end table perm start n)
      × (run_end table perm start n < start + n → perm_at table (run_end table perm start n) ≢ perm)
unfolding run_end
run_end-AllPerm table perm start zero =
    (ground arith, ground arith, λ i a b. ground arith, λ h. ground arith)
run_end-AllPerm table perm start (suc n) =
    let (low, high, all, other) = run_end-AllPerm table perm (start + 1) n in
    elim (Bool-cases (perm_at table start == perm)) [
      | inl e ↦ rw e (
        ground arith,
        ground arith,
        λ i a b. later i a b (eq-beq _ perm e) all,
        λ h. other (ground arith),
      )
      | inr e ↦ rw e (ground arith, ground arith, λ i a b. ground arith, λ h same. ground arith)
    ]
  where
    later :
        (i : ℕ)
        → start ≤ i
        → i < run_end table perm (start + 1) n
        → perm_at table start ≡ perm
        → AllPerm table perm (start + 1) (run_end table perm (start + 1) n)
        → perm_at table i ≡ perm
    later i a b e all = elim (Bool-cases (i == start)) [
      | inl same ↦ subst (λ j. perm_at table j ≡ perm) (sym (eq-beq i start same)) e
      | inr other ↦ all i (ground arith) b
    ]

-- A run: the entries before it are absent, its first is present, its entries have the same
-- permissions, and it goes on to the limit or to an entry with others.
abbrev pub Run : (ℕ → ℕ) → ℕ → ℕ → Option (ℕ × ℕ × ℕ) → Type 0
Run table start limit none = AllAbsent table start limit
Run table start limit (some (perm, left, right)) =
    (start ≤ left)
    × (left < right)
    × (right ≤ limit)
    × AllAbsent table start left
    × (is_present (table left) ≡ true)
    × AllPerm table perm left right
    × (right < limit → perm_at table right ≢ perm)

AllPerm-first :
    (table : ℕ → ℕ) (left right : ℕ)
    → AllPerm table (perm_at table left) (left + 1) right
    → AllPerm table (perm_at table left) left right
AllPerm-first table left right all i a b = elim (Bool-cases (i == left)) [
  | inl same ↦ ap (perm_at table) (eq-beq i left same)
  | inr other ↦ all i (ground arith) b
]

-- `get_pgtable_items` gives the next run of present entries with equal permissions, as long as it can
-- be, and none exactly where no entry up to the limit is present.
pub get_pgtable_items-Run :
    (table : ℕ → ℕ) (start limit : ℕ) → Run table start limit (get_pgtable_items start limit table)
unfolding get_pgtable_items
get_pgtable_items-Run table start limit =
    let left = skip_absent table start (limit - start) in
    let perm = perm_at table left in
    let (low, high, absent, found) = skip_absent-AllAbsent table start (limit - start) in
    let (low', high', all, other) = run_end-AllPerm table perm (left + 1) (limit - (left + 1)) in
    elim (Bool-cases (leb limit start)) [
      | inl e ↦ rw e (λ i a b. ground arith)
      | inr e ↦ rw e (elim (Bool-cases (ltb left limit)) [
        | inl f ↦ rw f (
          low,
          ground arith,
          ground arith,
          absent,
          found (ground arith),
          AllPerm-first table left (run_end table perm (left + 1) (limit - (left + 1))) all,
          λ h. other (ground arith),
        )
        | inr f ↦ rw f (λ i a b. absent i a (ground arith))
      ])
    ]
