-- ===== src/Mm/SwapSpace.antt =====
-- kern/mm/swap.c: swap entries, their sectors on the disk, and the loop that swaps pages out. The
-- manager is any one of the interface; whether a write of the disk from a sector succeeds is the
-- parameter `blk_write`.
pub mod Slots
pub mod Fault
pub mod Return
pub mod Victims
pub mod Drain
pub mod Start
use zonix.Prelude.{
  leb, ◌==◌, if◌then◌else◌, ℕ, zero, suc, ◌+◌, ◌-◌, ◌*◌, ◌/◌, ◌%◌, ◌^◌, Bool, true, false, not,
  Option, none, some, List, ◌∷◌,
}
use zonix.Mm.Page.{Page}
use zonix.Mm.Swap.{SwapManager}
use zonix.Mm.PageTable.{
  Vm, write_word, get_pte, pages_free, alloc_pages, pgdir_alloc_page, page_insert,
  find_vaddr_for_page,
}

abbrev pub swap_start_sector : ℕ
swap_start_sector = 1000

abbrev pub sectors_per_page : ℕ
sectors_per_page = 8

-- The state of `swap.c` and of what it calls; `written` are the sectors and pages written, the last
-- one first.
pub record SwapSpace (S : Type 0) : Type 0 where
  pub vm : Vm
  pub mgr : S
  pub swap_offset : ℕ
  pub max_swap_offset : ℕ
  pub written : List (ℕ × Page)

-- `max_swap_offset` of `swap_init`, for a device of `size` sectors.
unfoldable pub swap_slots : ℕ → ℕ
swap_slots size = (size + 2 ^ 32 - swap_start_sector) % 2 ^ 32 / sectors_per_page

unfoldable pub swap_entry : ℕ → ℕ
swap_entry offset = offset * 2 ^ 8 % 2 ^ 32

-- The sector of `swapfs_read` and `swapfs_write`.
unfoldable pub swap_sector : ℕ → ℕ
swap_sector entry =
    let offset = entry / 2 ^ 8 % 2 ^ 24 in (swap_start_sector + offset * sectors_per_page) % 2 ^ 32

-- The increment of `swap_offset` in `swap_out`.
unfoldable pub next_offset : ℕ → ℕ → ℕ
next_offset max offset = if leb max (offset + 1) then 1 else offset + 1

module _ {S : Type 0} (m : SwapManager S) (blk_write : ℕ → Bool) (fuel pgdir : ℕ) where
  -- The end of a turn of `swap_out` that has written the page.
  abbrev pub release_victim : Page → Option Vm → SwapSpace S → Option (SwapSpace S)
  release_victim page none s = none
  release_victim page (some vm) s =
      some (record s { vm = vm; swap_offset = next_offset s.max_swap_offset s.swap_offset })

  -- The turn from the entry of the victim on.
  abbrev pub write_victim : Page → Option (Option ℕ × Vm) → SwapSpace S → Option (SwapSpace S)
  write_victim page none s = none
  write_victim page (some (none, vm)) s = some s
  write_victim page (some (some ptep, vm)) s =
      let entry = swap_entry s.swap_offset in
      let sector = swap_sector entry in
      if not (blk_write sector)
      then some s
      else (let vm = record vm { mem = write_word ptep entry vm.mem } in
          release_victim page (pages_free fuel page 1 vm)
            (record s { written = (sector, page) ∷ s.written }))

  -- A turn with a victim.
  abbrev pub swap_page : Page → SwapSpace S → Option (SwapSpace S)
  swap_page page s =
      let addr = find_vaddr_for_page pgdir page s.vm.mem in
      if addr == 0 then some s else write_victim page (get_pte fuel pgdir addr false s.vm) s

  abbrev pub then_turns :
      Option (SwapSpace S) → (SwapSpace S → Option (ℕ × SwapSpace S)) → Option (ℕ × SwapSpace S)
  then_turns none f = none
  then_turns (some s) f = f s

  -- The loop of `swap_out` from turn `i` on, with `n` to go: the turns made and the state. The outer
  -- `none` is the end of the fuel.
  unfoldable pub swap_out_loop : ℕ → ℕ → SwapSpace S → Option (ℕ × SwapSpace S)
  swap_out_loop i zero s = some (i, s)
  swap_out_loop i (suc n) s =
      let (victim, found, mgr) = m.swap_out_victim s.mgr in
      let s = record s { mgr = mgr } in
      elim victim [
        | none ↦ some (i, s)
        | some page ↦
            if not found
            then some (i, s)
            else then_turns (swap_page page s) (swap_out_loop (i + 1) n)
      ]

  unfoldable pub swap_out : ℕ → SwapSpace S → Option (ℕ × SwapSpace S)
  swap_out n s = swap_out_loop 0 n s

module _ {S : Type 0} (m : SwapManager S) (blk_read : ℕ → Bool) (fuel pgdir : ℕ) where
  -- An error of `swap_in`: the page goes back.
  abbrev pub give_back : SwapSpace S → Option Vm → Option (Option Page × SwapSpace S)
  give_back s none = none
  give_back s (some vm) = some (none, record s { vm = vm })

  -- The end of `swap_in`: the page is mapped and made swappable.
  abbrev pub map_page :
      ℕ → Page → SwapSpace S → Option (Bool × Vm) → Option (Option Page × SwapSpace S)
  map_page addr page s none = none
  map_page addr page s (some (done, vm)) =
      some (some page, record s { vm = vm; mgr = m.map_swappable addr page s.mgr })

  -- `swap_in` from the entry on.
  abbrev pub read_page :
      ℕ → Page → SwapSpace S → Option (Option ℕ × Vm) → Option (Option Page × SwapSpace S)
  read_page addr page s none = none
  read_page addr page s (some (none, vm)) = give_back s (pages_free fuel page 1 vm)
  read_page addr page s (some (some ptep, vm)) =
      if not (blk_read (swap_sector (vm.mem ptep)))
      then give_back s (pages_free fuel page 1 vm)
      else map_page addr page s (page_insert fuel pgdir page addr 6 vm)

  abbrev pub with_page :
      ℕ → SwapSpace S → Option (Option Page × Vm) → Option (Option Page × SwapSpace S)
  with_page addr s none = none
  with_page addr s (some (none, vm)) = some (none, record s { vm = vm })
  with_page addr s (some (some page, vm)) = read_page addr page s (get_pte fuel pgdir addr false vm)

  -- The page that is loaded, or none for the result -1.
  unfoldable pub swap_in : ℕ → SwapSpace S → Option (Option Page × SwapSpace S)
  swap_in addr s = with_page addr s (alloc_pages fuel 1 s.vm)

  abbrev pub loaded : Option (Option Page × SwapSpace S) → Option (SwapSpace S)
  loaded none = none
  loaded (some (page, s)) = some s

  abbrev pub fresh : SwapSpace S → Option (Option Page × Vm) → Option (SwapSpace S)
  fresh s none = none
  fresh s (some (page, vm)) = some (record s { vm = vm })

  -- `vmm_pg_fault` of kern/mm/vmm.c, from the entry on; a missing entry is not tested for there, and
  -- here it is the outer `none`.
  abbrev pub fault_at : ℕ → SwapSpace S → Option (Option ℕ × Vm) → Option (SwapSpace S)
  fault_at addr s none = none
  fault_at addr s (some (none, vm)) = none
  fault_at addr s (some (some ptep, vm)) =
      if vm.mem ptep == 0
      then fresh s (pgdir_alloc_page fuel pgdir addr 4 vm)
      else loaded (swap_in addr (record s { vm = vm }))

  unfoldable pub vmm_pg_fault : ℕ → SwapSpace S → Option (SwapSpace S)
  vmm_pg_fault addr s =
      let addr = addr - addr % 4096 in fault_at addr s (get_pte fuel pgdir addr true s.vm)
