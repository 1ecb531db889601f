-- ===== src/Drivers/Hd/SelfTest.antt =====
-- `hd_test` of kern/drivers/hd.c. The bytes that the drive transfers in the read are the parameter `given`, by
-- device number and place.
pub mod Verdict
use zonix.Prelude.{
  ltb, ◌==◌, if◌then◌else◌, codes, ℕ, zero, suc, ◌+◌, ◌*◌, ◌/◌, ◌%◌, Bool, not, Option, none, some,
  List, [], ◌∷◌, ◌++◌,
}
use Prim.Native.String.{String}
use zonix.Cons.Stdio.{Text, word, text, cprintf}
use zonix.Drivers.Hd.{IdeDevice, hd_read_device, hd_write_device, max_ide_devices, sector_size}

abbrev pub say : String → Text
say line = cprintf (codes line) []

abbrev pub test_sector : ℕ
test_sector = 100

-- `write_buf[i]`
abbrev pub pattern : ℕ → ℕ → ℕ
pattern dev_id i = (i + dev_id * 17) % 256

abbrev pub mismatch_line : ℕ → ℕ → ℕ → Text
mismatch_line i wrote got =
    cprintf (codes "    Mismatch at offset %d: expected 0x%02x, got 0x%02x\n")
      (word i ∷ word wrote ∷ word got ∷ [])

-- The loop of the comparison from byte `i` on, with `n` to go: what is printed, and the errors.
unfoldable pub compare_bytes : (ℕ → ℕ) → (ℕ → ℕ) → ℕ → ℕ → ℕ → Text × ℕ
compare_bytes wrote got i zero errors = ([], errors)
compare_bytes wrote got i (suc n) errors =
    let differs = not (got i == wrote i) in
    let (lines, total) =
      compare_bytes wrote got (i + 1) n (if differs then errors + 1 else errors) in
    let line =
      if differs then (if ltb errors 5 then mismatch_line i (wrote i) (got i) else []) else [] in
    (line ++ lines, total)

-- The lines from the comparison on.
unfoldable pub verdict : List ℕ → Text × ℕ → Text
verdict name (lines, errors) =
    lines
    ++ (if ltb 0 errors
        then cprintf (codes "    FAILED: %d mismatches\n") (word errors ∷ [])
        else say "    OK\n")
    ++ cprintf (codes "  %s test %s\n\n")
        (text name ∷ text (if errors == 0 then codes "PASSED" else codes "FAILED") ∷ [])

abbrev pub test_read : (ℕ → ℕ → ℕ) → ℕ → IdeDevice → Bool → Text
test_read given dev_id dev read =
    cprintf (codes "  Test 2: Read sector %d...\n") (word test_sector ∷ [])
    ++ (if not read
        then say "    FAILED: read error\n"
        else say "    OK\n"
          ++ say "  Test 3: Verify data...\n"
          ++ verdict dev.name (compare_bytes (pattern dev_id) (given dev_id) 0 sector_size 0))

-- The lines of a device that is there.
abbrev pub device_head : ℕ → IdeDevice → Text
device_head dev_id dev =
    cprintf (codes "--- Testing %s (dev_id=%d) ---\n") (text dev.name ∷ word dev_id ∷ [])
    ++ cprintf (codes "  Size: %d sectors (%d MB)\n") (word dev.size ∷ word (dev.size / 2048) ∷ [])
    ++ cprintf (codes "  Test 1: Write sector %d...\n") (word test_sector ∷ [])

-- The test of one device: the lines and the number of status reads after it.
unfoldable pub test_device : (ℕ → ℕ) → (ℕ → ℕ → ℕ) → ℕ → IdeDevice → ℕ → Text × ℕ
test_device status given dev_id dev n =
    let (wrote, n1, sent) = hd_write_device status dev test_sector 1 n in
    let (read, n2, got) = hd_read_device status dev test_sector 1 n1 in
    if not wrote
    then (device_head dev_id dev ++ say "    FAILED: write error\n", n1)
    else (device_head dev_id dev ++ say "    OK\n" ++ test_read given dev_id dev read, n2)

abbrev pub test_slot : (ℕ → ℕ) → (ℕ → ℕ → ℕ) → ℕ → Option IdeDevice → ℕ → Text × ℕ
test_slot status given dev_id none n = ([], n)
test_slot status given dev_id (some dev) n =
    if not dev.present then ([], n) else test_device status given dev_id dev n

-- The loop over the devices from `dev_id` on, with `count` to go.
unfoldable pub test_devices : (ℕ → ℕ) → (ℕ → ℕ → ℕ) → (ℕ → Option IdeDevice) → ℕ → ℕ → ℕ → Text
test_devices status given devs dev_id zero n = []
test_devices status given devs dev_id (suc count) n =
    let (lines, n1) = test_slot status given dev_id (devs dev_id) n in
    lines ++ test_devices status given devs (dev_id + 1) count n1

unfoldable pub hd_test : (ℕ → ℕ) → (ℕ → ℕ → ℕ) → (ℕ → Option IdeDevice) → ℕ → Text
hd_test status given devs num_devices =
    say "\n=== Multi-Disk Test ===\n"
    ++ cprintf (codes "Testing %d disk device(s)\n\n") (word num_devices ∷ [])
    ++ (if num_devices == 0
        then say "No disk devices found!\n" ++ say "=== Test Complete ===\n\n"
        else test_devices status given devs 0 max_ide_devices 0
          ++ say "=== Multi-Disk Test Complete ===\n\n")
