-- ===== src/Drivers/Kdb/Keys.antt =====
-- The characters that the keyboard of kern/drivers/kdb.c gives.
use zonix.Prelude.{
  ltb, ◌==◌, Bool-cases, passes_below, passes_below_lem, ℕ, ◌/◌, ◌%◌, ◌≤◌, ◌<◌, ◌≡◌, refl, ◌⊎◌, inl,
  inr, true, none, some, arith,
}
use zonix.Drivers.Kdb.{kdb_getc, normal_map}

normal_map-ascii : passes_below (λ c. ltb (normal_map c) 128) 128 ≡ true
unfolding normal_map passes_below
normal_map-ascii = refl

-- For a byte of the keyboard, `kdb_getc` gives -1 if it is the release of a key or no byte is there, and
-- else an ASCII character or 0, so that its conversion to `char` is never negative but for -1.
pub kdb_getc-bound :
    (status scancode : ℕ)
    → scancode < 256
    → ((kdb_getc status scancode ≡ none) × ((status % 2 ≡ 0) ⊎ (128 ≤ scancode)))
      ⊎ ((c : ℕ) × (kdb_getc status scancode ≡ some c)
          × (c < 128)
          × (scancode < 128)
          × (status % 2 ≡ 1))
unfolding kdb_getc
kdb_getc-bound status scancode b = elim (Bool-cases (status % 2 == 0)) [
  | inl e ↦ inl (rw e refl, inl (ground arith))
  | inr e ↦ elim (Bool-cases (scancode / 128 % 2 == 1)) [
    | inl f ↦ inl (rw (e, f) refl, inr (ground arith))
    | inr f ↦
        let low : scancode < 128 = ground arith in
        let t = passes_below_lem (λ c. ltb (normal_map c) 128) 128 scancode low normal_map-ascii in
        inr (normal_map scancode, rw (e, f) refl, ground arith, low, ground arith)
  ]
]
