-- ===== src/Boot/Header.antt =====
-- The test of the kernel's header by `bootmain` of boot/bootload.c.
use zonix.Prelude.{
  ◌==◌, beq_ne, ℕ, ◌+◌, ◌^◌, ◌≤◌, ◌<◌, ◌≡◌, refl, sym, ◌∙◌, ◌≢◌, ◌⊎◌, false, some, List, arith,
}
use zonix.Boot.{Loader, bootmain, bad, word_at, elf_magic, kernel_header}
use zonix.Boot.Segment.{Answers, Delivers, readseg-bytes}

-- The first word of the kernel's file, which starts behind the boot sector.
abbrev pub magic_of : (ℕ → ℕ) → ℕ
magic_of disk = word_at (λ a. disk (512 + a)) 0

module _ (status : ℕ → ℕ) (transfer : List (ℕ × ℕ) → ℕ → ℕ) where
  -- If the disk answers and delivers and the kernel's file does not start with the magic number of ELF,
  -- then `bootmain` ends at `bad`, and no byte outside the header's 4 KiB and the 511 bytes behind it has
  -- changed. A turn for each of the 8 sectors of the header is enough.
  pub bootmain-bad :
      (turns fuel : ℕ) (disk : ℕ → ℕ) (s : Loader)
      → Answers status transfer fuel
      → Delivers status transfer disk
      → 8 ≤ turns
      → turns < 2 ^ 27
      → magic_of disk ≢ elf_magic
      → (t : Loader) × (bootmain status transfer turns fuel s ≡ some (bad t))
        × ((x : ℕ) → (x < kernel_header) ⊎ (kernel_header + 4096 + 511 ≤ x) → t.mem x ≡ s.mem x)
  unfolding bootmain
  bootmain-bad turns fuel disk s ans del enough small ne =
      let (t, done, bytes, kept) =
        readseg-bytes status transfer turns fuel kernel_header 4096 0 disk s ans del (omega arith)
          (omega arith) (omega arith) (omega arith) in
      let b0 = bytes 0 (ground arith) in
      let b1 = bytes 1 (ground arith) in
      let b2 = bytes 2 (ground arith) in
      let b3 = bytes 3 (ground arith) in
      let word : word_at t.mem kernel_header ≡ magic_of disk = ground (arith, b0, b1, b2, b3) in
      let e : (word_at t.mem kernel_header == elf_magic) ≡ false =
        beq_ne _ _ (λ same. ne (sym word ∙ same)) in
      (t, rw (done, e) refl, λ x out. kept x out)
