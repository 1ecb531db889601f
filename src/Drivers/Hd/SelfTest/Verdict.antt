-- ===== src/Drivers/Hd/SelfTest/Verdict.antt =====
-- What `hd_test` of kern/drivers/hd.c reports of a drive that works.
use zonix.Prelude.{
  ◌==◌, if◌then◌else◌, length, take, codes, ℕ, zero, suc, ◌+◌, ◌-◌, List, [], ◌∷◌, ◌++◌,
}
use zonix.Cons.Stdio.{Text, word, cprintf, text}
use zonix.Drivers.Hd.{IdeDevice}
use zonix.Drivers.Hd.SelfTest.{say, test_sector, mismatch_line, device_head}

-- The places from `i` on, `n` in all, at which two buffers differ.
unfoldable pub differences : (ℕ → ℕ) → (ℕ → ℕ) → ℕ → ℕ → List ℕ
differences wrote got i zero = []
differences wrote got i (suc n) =
    let rest = differences wrote got (i + 1) n in if got i == wrote i then rest else i ∷ rest

abbrev pub lines_of : (ℕ → ℕ) → (ℕ → ℕ) → List ℕ → Text
lines_of wrote got [] = []
lines_of wrote got (i ∷ is) = mismatch_line i (wrote i) (got i) ++ lines_of wrote got is

module _ (wrote got : ℕ → ℕ) where
  -- No more lines are due once there were five errors.
  abbrev due : ℕ → List ℕ → Text
  due errors is = lines_of wrote got (take (5 - errors) is)

-- The end of the report: passed if there is no difference, failed with their number otherwise.
abbrev pub outcome : List ℕ → List ℕ → Text
outcome name [] =
    say "    OK\n" ++ cprintf (codes "  %s test %s\n\n") (text name ∷ text (codes "PASSED") ∷ [])
outcome name (i ∷ is) =
    cprintf (codes "    FAILED: %d mismatches\n") (word (suc (length is)) ∷ [])
    ++ cprintf (codes "  %s test %s\n\n") (text name ∷ text (codes "FAILED") ∷ [])

-- The lines of a test whose write and read succeed, with what was written and what was read.
abbrev pub report : ℕ → IdeDevice → (ℕ → ℕ) → (ℕ → ℕ) → Text
report dev_id dev wrote got =
    device_head dev_id dev
    ++ say "    OK\n"
    ++ (cprintf (codes "  Test 2: Read sector %d...\n") (word test_sector ∷ [])
        ++ (say "    OK\n"
            ++ say "  Test 3: Verify data...\n"
            ++ (lines_of wrote got (take 5 (differences wrote got 0 512))
                ++ outcome dev.name (differences wrote got 0 512))))
