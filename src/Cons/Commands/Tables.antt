-- ===== src/Cons/Commands/Tables.antt =====
-- The commands of kern/cons/shell.c that print a table of the kernel.
use zonix.Prelude.{
  ◌==◌, if◌then◌else◌, codes, ℕ, zero, suc, ◌+◌, ◌/◌, Option, none, some, [], ◌∷◌, ◌++◌,
}
use zonix.Cons.Stdio.{Text, word, text, cprintf}
use zonix.Cons.Commands.{print_line}
use zonix.Drivers.Hd.{IdeDevice}
use zonix.Drivers.Hd.SelfTest.{hd_test}
use zonix.Drivers.Blk.{Registry}
use zonix.Drivers.Blk.Listing.{blk_list_devices}
use zonix.Mm.PageTable.Items.Print.{print_pgdir}
use zonix.Sched.{Sched}
use zonix.Sched.Listing.{print_all_procs}

unfoldable pub cmd_pgdir : ℕ → ℕ → (ℕ → ℕ) → (ℕ → ℕ) → Option Text
cmd_pgdir turns fuel vpd vpt = print_pgdir turns fuel vpd vpt

unfoldable pub cmd_lsblk : Registry → Text
cmd_lsblk r = blk_list_devices r

-- The lines of one disk.
unfoldable pub disk_lines : ℕ → IdeDevice → Text
disk_lines dev_id dev =
    cprintf (codes "Device: %s (dev_id=%d)\n") (text dev.name ∷ word dev_id ∷ [])
    ++ cprintf (codes "  Channel: %s, Drive: %s\n") (
        text (if dev.channel == 0 then codes "Primary" else codes "Secondary")
        ∷ text (if dev.drive == 0 then codes "Master" else codes "Slave")
        ∷ [])
    ++ cprintf (codes "  Base I/O: 0x%x, IRQ: %d\n") (word dev.base ∷ word dev.irq ∷ [])
    ++ cprintf (codes "  Size: %d sectors (%d MB)\n") (word dev.size ∷ word (dev.size / 2048) ∷ [])
    ++ cprintf (codes "  CHS: %d cylinders, %d heads, %d sectors/track\n")
        (word dev.cylinders ∷ word dev.heads ∷ word dev.sectors ∷ [])
    ++ print_line "\n"

abbrev pub slot_lines : ℕ → Option IdeDevice → Text
slot_lines dev_id none = []
slot_lines dev_id (some dev) = disk_lines dev_id dev

-- The loop of `cmd_hdparm` from `dev_id` on, with `n` to go; `devs` is `hd_get_device`.
unfoldable pub hdparm_loop : (ℕ → Option IdeDevice) → ℕ → ℕ → Text
hdparm_loop devs dev_id zero = []
hdparm_loop devs dev_id (suc n) = slot_lines dev_id (devs dev_id) ++ hdparm_loop devs (dev_id + 1) n

unfoldable pub cmd_hdparm : (ℕ → Option IdeDevice) → ℕ → Text
cmd_hdparm devs num_devices =
    if num_devices == 0
    then print_line "No disk devices found\n"
    else cprintf (codes "IDE Disk Information (%d device(s) found):\n\n") (word num_devices ∷ [])
      ++ hdparm_loop devs 0 4

unfoldable pub cmd_disktest : (ℕ → ℕ) → (ℕ → ℕ → ℕ) → (ℕ → Option IdeDevice) → ℕ → Text
cmd_disktest status given devs num_devices =
    print_line "Running disk test...\n" ++ hd_test status given devs num_devices

unfoldable pub cmd_ps : ℕ → Sched → Option Text
cmd_ps fuel s = print_all_procs fuel s
