-- ===== src/Boot.antt =====
-- boot/bootload.c: the loader of the kernel. Memory is given by bytes, addresses have 32 bits. The `n`-th
-- read of the status register gives `status n`, and `transfer ws i` is the byte `i` of the sector that the
-- controller gives after the writes `ws` to its ports. `none` is the end of the fuel of a loop.
pub mod Segment
pub mod Header
use zonix.Prelude.{
  ltb, leb, ◌==◌, if◌then◌else◌, ℕ, zero, suc, ◌+◌, ◌-◌, ◌*◌, ◌/◌, ◌%◌, ◌^◌, ◌&&◌, Option, none,
  some, List, [], ◌∷◌,
}

abbrev pub sect_size : ℕ
sect_size = 512

abbrev pub kernel_header : ℕ
kernel_header = 0x10000

abbrev pub elf_magic : ℕ
elf_magic = 0x464C457F

-- The memory, and how often the status was read.
pub record Loader : Type 0 where
  pub mem : ℕ → ℕ
  pub polls : ℕ

-- The writes of `readsect` to the ports.
unfoldable pub read_command : ℕ → List (ℕ × ℕ)
read_command secno =
    (0x1F2, 1)
    ∷ (0x1F3, secno % 256)
    ∷ (0x1F4, secno / 2 ^ 8 % 256)
    ∷ (0x1F5, secno / 2 ^ 16 % 256)
    ∷ (0x1F6, secno / 2 ^ 24 % 16 + 0xE0)
    ∷ (0x1F7, 0x20)
    ∷ []

-- `insl` of a whole sector.
abbrev pub store_sector : ℕ → (ℕ → ℕ) → (ℕ → ℕ) → ℕ → ℕ
store_sector dst bytes mem a =
    if leb dst a && ltb a (dst + sect_size) then bytes (a - dst) else mem a

abbrev pub and_then : Option Loader → (Loader → Option Loader) → Option Loader
and_then none f = none
and_then (some s) f = f s

-- A word of memory, and one of 16 bits.
abbrev pub word_at : (ℕ → ℕ) → ℕ → ℕ
word_at mem a = mem a + 2 ^ 8 * mem (a + 1) + 2 ^ 16 * mem (a + 2) + 2 ^ 24 * mem (a + 3)

abbrev pub half_at : (ℕ → ℕ) → ℕ → ℕ
half_at mem a = mem a + 2 ^ 8 * mem (a + 1)

-- The call of the entry point, or the endless loop at `bad`; the memory then.
pub data Outcome : Type 0 where
  call : ℕ → Loader → Outcome
  bad : Loader → Outcome

abbrev pub enter_kernel : Option Loader → Option Outcome
enter_kernel none = none
enter_kernel (some s) = some (call (word_at s.mem (kernel_header + 24) % 2 ^ 24) s)

module _ (status : ℕ → ℕ) (transfer : List (ℕ × ℕ) → ℕ → ℕ) where
  -- The reads of the status from the `n`-th on; the number of the read after the last.
  unfoldable pub waitdisk : ℕ → ℕ → Option ℕ
  waitdisk zero n = none
  waitdisk (suc fuel) n =
      let rest = waitdisk fuel (n + 1) in if status n / 64 % 4 == 1 then some (n + 1) else rest

  abbrev pub then_store : ℕ → ℕ → (ℕ → ℕ) → Option ℕ → Option Loader
  then_store dst secno mem none = none
  then_store dst secno mem (some n) =
      some (record { mem = store_sector dst (transfer (read_command secno)) mem; polls = n })

  abbrev pub then_command : ℕ → ℕ → ℕ → (ℕ → ℕ) → Option ℕ → Option Loader
  then_command fuel dst secno mem none = none
  then_command fuel dst secno mem (some n) = then_store dst secno mem (waitdisk fuel n)

  unfoldable pub readsect : ℕ → ℕ → ℕ → Loader → Option Loader
  readsect fuel dst secno s = then_command fuel dst secno s.mem (waitdisk fuel s.polls)

  -- The loop of `readseg`.
  unfoldable pub readseg_loop : ℕ → ℕ → ℕ → ℕ → ℕ → Loader → Option Loader
  readseg_loop zero fuel va end_va secno s = if ltb va end_va then none else some s
  readseg_loop (suc turns) fuel va end_va secno s =
      if ltb va end_va
      then and_then (readsect fuel va secno s)
          (readseg_loop turns fuel ((va + sect_size) % 2 ^ 32) end_va (secno + 1))
      else some s

  unfoldable pub readseg : ℕ → ℕ → ℕ → ℕ → ℕ → Loader → Option Loader
  readseg turns fuel va count offset s =
      let end_va = (va + count) % 2 ^ 32 in
      let start = (va + 2 ^ 32 - offset % sect_size) % 2 ^ 32 in
      readseg_loop turns fuel start end_va (offset / sect_size + 1) s

  -- The loop over the program headers: `p_va`, `p_memsz` and `p_offset` stand at 8, 20 and 4.
  unfoldable pub load_segments : ℕ → ℕ → ℕ → ℕ → Loader → Option Loader
  load_segments zero turns fuel ph s = some s
  load_segments (suc n) turns fuel ph s =
      and_then
        (readseg turns fuel (word_at s.mem (ph + 8) % 2 ^ 24) (word_at s.mem (ph + 20))
          (word_at s.mem (ph + 4)) s)
        (load_segments n turns fuel (ph + 32))

  -- `e_phoff` and `e_phnum` stand at 28 and 44.
  abbrev pub check_header : ℕ → ℕ → Option Loader → Option Outcome
  check_header turns fuel none = none
  check_header turns fuel (some s) =
      if word_at s.mem kernel_header == elf_magic
      then enter_kernel (
          load_segments (half_at s.mem (kernel_header + 44)) turns fuel
            (kernel_header + word_at s.mem (kernel_header + 28)) s)
      else some (bad s)

  unfoldable pub bootmain : ℕ → ℕ → Loader → Option Outcome
  bootmain turns fuel s =
      check_header turns fuel (readseg turns fuel kernel_header (sect_size * 8) 0 s)
