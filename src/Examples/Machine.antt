-- ===== src/Examples/Machine.antt =====
-- Descriptor tables and a clock at concrete values, for kern/arch/x86/idt.c and kern/drivers/pit.c.
use zonix.Prelude.{◌==◌, if◌then◌else◌, ℕ, ◌+◌, ◌*◌, ◌/◌, ◌%◌, ◌≤◌, ◌≡◌, refl, some, [], arith}
use zonix.Drivers.Pic.{Pic}
use zonix.Drivers.Pic.Mask.{masked}
use zonix.Arch.Gates.{GateDesc, idt_init, entry_of, trap_entry, idt_init-entries, t_syscall}
use zonix.Arch.Segments.{gen_seg_desc, segment_of, gen_seg_desc-segment}
use zonix.Arch.Pit.{pit_init, start_timer}
use zonix.Arch.Pit.Snapshot.{Clock, bcd, time_at, pit_init-time}

abbrev stubs : ℕ → ℕ
stubs n = 0xC0100000 + 8 * n

abbrev no_gate : GateDesc
no_gate = record {
  gd_off_15_0 = 0;
  gd_ss = 0;
  gd_args = 0;
  gd_rsv1 = 0;
  gd_type = 0;
  gd_s = 0;
  gd_dpl = 0;
  gd_p = 0;
  gd_off_31_16 = 0;
}

idt_init-entries_example :
    entry_of (idt_init stubs (λ n. no_gate) 0x80)
    ≡ trap_entry (stubs 0x80) (if 0x80 == t_syscall then 3 else 0)
idt_init-entries_example = idt_init-entries stubs (λ n. no_gate) 0x80 (omega arith) (omega arith)

-- The code segment of the boot loader.
gen_seg_desc-segment_example : segment_of (gen_seg_desc 0xA 0 0xFFFFFFFF) ≡ record {
  base = 0;
  limit = 0xFFFFFFFF / 4096 * 4096 + 4095;
  type = 0xA;
  application = 1;
  privilege = 0;
  present = 1;
  wide = 1;
}
gen_seg_desc-segment_example =
    gen_seg_desc-segment 0xA 0 0xFFFFFFFF (omega arith) (omega arith) (omega arith)

-- A clock that is read ten times in a second.
abbrev reads : ℕ → ℕ
reads n = (n + 8) / 10

abbrev fields : ℕ → ℕ → ℕ
fields s a = if a == 0 then s % 60 else 12

abbrev registers : ℕ → ℕ → ℕ
registers n a = bcd (fields (reads n) a)

ticking : Clock registers reads fields
ticking = record {
  shows = λ n a. refl;
  digits = λ s a. ground arith;
  seconds = λ s. refl;
  later = λ m n le. omega arith;
  quick = λ n. omega arith;
}

abbrev all_masked : Pic
all_masked = record { irq_mask = 0xFFFF; ports = [] }

-- A second ends in the first two turns and none in the third.
pit_init-time_example :
    (j : ℕ) × (j ≤ 2)
    × (pit_init registers 3 all_masked
        ≡ some (time_at fields (reads (7 * j)), start_timer all_masked))
    × (masked (start_timer all_masked).ports 0 ≡ 0)
pit_init-time_example =
    pit_init-time registers reads fields ticking 3 2 all_masked (omega arith) refl
