-- ===== src/Drivers/Blk/Listing.antt =====
-- `blk_list_devices` of kern/drivers/blk.c.
use zonix.Prelude.{
  ◌==◌, if◌then◌else◌, codes, ℕ, zero, suc, ◌+◌, ◌*◌, Option, none, some, List, [], ◌∷◌, ◌++◌,
}
use Prim.Native.String.{String}
use zonix.Cons.Stdio.{Text, word, text, cprintf}
use zonix.Drivers.Blk.{BlockDevice, Registry, listed_size}

abbrev pub blk_type_swap : ℕ
blk_type_swap = 2

abbrev pub header : String
header = "NAME   MAJ:MIN RM  SIZE RO TYPE MOUNTPOINTS\n"

abbrev pub mount_str : BlockDevice → Text
mount_str dev = if dev.typ == blk_type_swap then codes "[SWAP]" else []

unfoldable pub device_line : ℕ → BlockDevice → Text
device_line i dev = cprintf (codes "%-6s %3d:%-3d %-2d %2d.%dM %-2d %-4s %s\n") (
    text dev.name
    ∷ word 8
    ∷ word (i * 16)
    ∷ word 0
    ∷ word (listed_size dev.size).0
    ∷ word (listed_size dev.size).1
    ∷ word 0
    ∷ text (codes "disk")
    ∷ text (mount_str dev)
    ∷ [])

abbrev pub slot_line : ℕ → Option BlockDevice → Text
slot_line i none = []
slot_line i (some dev) = device_line i dev

-- The loop from place `i` on, with `n` to go.
unfoldable pub list_devices : Registry → ℕ → ℕ → Text
list_devices r i zero = []
list_devices r i (suc n) = slot_line i (r.block_devices i) ++ list_devices r (i + 1) n

unfoldable pub blk_list_devices : Registry → Text
blk_list_devices r = cprintf (codes header) [] ++ list_devices r 0 r.num_devices

-- A line for each device, numbered from `i` on.
abbrev pub device_lines : ℕ → List BlockDevice → Text
device_lines i [] = []
device_lines i (d ∷ ds) = device_line i d ++ device_lines (i + 1) ds
