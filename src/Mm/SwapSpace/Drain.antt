-- ===== src/Mm/SwapSpace/Drain.antt =====
-- The loop of `swap_out` of kern/mm/swap.c over several pages, with a manager that keeps a queue and the
-- first-fit manager behind it.
use zonix.Prelude.{
  if◌then◌else◌, length, ◌∉◌, ℕ, ◌+◌, ◌≤◌, ◌<◌, ◌≡◌, ◌⊎◌, Bool, true, not, Option, none, some, List,
  [],
}
use zonix.Mm.Page.{Page}
use zonix.Mm.FirstFit.Blocks.{Blocks}
use zonix.Mm.FirstFit.Invariant.{IsFree}
use zonix.Mm.Swap.{SwapManager, QueueLaws}
use zonix.Mm.SwapSpace.{SwapSpace, swap_entry, swap_sector, swap_page, swap_out_loop, then_turns}
use zonix.Mm.SwapSpace.Victims.{Victim, entries_of, released, log, InSlots}

-- The disk takes a page at each of the slots.
abbrev pub SlotsWritable : (ℕ → Bool) → ℕ → Type 0
SlotsWritable blk_write max =
    (slot : ℕ) → 0 < slot → slot < max → blk_write (swap_sector (swap_entry slot)) ≡ true

module _ {S : Type 0} (m : SwapManager S) (laws : QueueLaws m) (blk_write : ℕ → Bool)
    (fuel pgdir : ℕ) where
  -- A turn of the loop, by what the manager gives.
  abbrev turn : ℕ → ℕ → SwapSpace S → Option Page → Bool → Option (ℕ × SwapSpace S)
  turn i n s o found = elim o [
    | none ↦ some (i, s)
    | some page ↦
        if not found
        then some (i, s)
        else then_turns m blk_write fuel pgdir (swap_page m blk_write fuel pgdir page s)
            (swap_out_loop m blk_write fuel pgdir (i + 1) n)
  ]

  -- What the loop leaves.
  record Drained (i : ℕ) (s : SwapSpace S) (vs : List Victim) (ps : List Page) (bs : Blocks) (n : ℕ)
      : Type 0 where
    final : SwapSpace S
    runs : swap_out_loop m blk_write fuel pgdir i n s ≡ some (i + length vs, final)
    queue : laws.Holds final.mgr ps
    written : final.written ≡ log s.max_swap_offset s.swap_offset vs s.written
    slots : InSlots s.max_swap_offset s.swap_offset final.vm vs
    freed_blocks : IsFree final.vm.pmm (released vs bs)
    others : (x : ℕ) → x ∉ entries_of vs → final.vm.mem x ≡ s.vm.mem x

  -- The pages of `vs` are the first `n` of the queue, or all of a shorter one.
  abbrev pub Served : ℕ → List Victim → List Page → Type 0
  Served n vs ps = (n ≡ length vs) ⊎ ((ps ≡ []) × (length vs ≤ n))
