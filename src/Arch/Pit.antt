-- ===== src/Arch/Pit.antt =====
-- kern/drivers/pit.c: the clock that is read at start-up, and the timer. The byte that the n-th read of the
-- clock gives for register `a` is the parameter `cmos`; the write that selects the register belongs to it.
pub mod Snapshot
use zonix.Prelude.{◌==◌, ℕ, zero, suc, ◌+◌, ◌*◌, ◌/◌, ◌%◌, true, false, Option, none, some}
use zonix.Drivers.Pic.{Pic, outb, pic_enable}

-- The fields of `tm` that are set.
pub record Time : Type 0 where
  pub tm_sec : ℕ
  pub tm_min : ℕ
  pub tm_hour : ℕ
  pub tm_mday : ℕ
  pub tm_mon : ℕ
  pub tm_year : ℕ

abbrev pub timer_div : ℕ → ℕ
timer_div x = 1193180 / x

abbrev pub bcd_to_bin : ℕ → ℕ
bcd_to_bin val = val % 16 + val / 16 * 10

-- One turn of the loop, from read `n` on.
abbrev pub read_time : (ℕ → ℕ → ℕ) → ℕ → Time
read_time cmos n = record {
  tm_sec = cmos n 0;
  tm_min = cmos (n + 1) 2;
  tm_hour = cmos (n + 2) 4;
  tm_mday = cmos (n + 3) 7;
  tm_mon = cmos (n + 4) 8;
  tm_year = cmos (n + 5) 9;
}

-- The loop; `none` is the end of the fuel.
unfoldable pub read_clock : (ℕ → ℕ → ℕ) → ℕ → ℕ → Option Time
read_clock cmos zero n = none
read_clock cmos (suc fuel) n = elim ((read_time cmos n).tm_sec == cmos (n + 6) 0) [
  | true ↦ some (read_time cmos n)
  | false ↦ read_clock cmos fuel (n + 7)
]

abbrev pub time_to_bin : Time → Time
time_to_bin t = record {
  tm_sec = bcd_to_bin t.tm_sec;
  tm_min = bcd_to_bin t.tm_min;
  tm_hour = bcd_to_bin t.tm_hour;
  tm_mday = bcd_to_bin t.tm_mday;
  tm_mon = bcd_to_bin t.tm_mon;
  tm_year = bcd_to_bin t.tm_year;
}

-- `PIT_SEL_TIMER0 | PIT_RATE_GEN | PIT_16BIT`, and the divisor from its low byte on.
unfoldable pub start_timer : Pic → Pic
start_timer s =
    pic_enable 0
      (outb 0x40 (timer_div 100 / 256) (outb 0x40 (timer_div 100 % 256) (outb 0x43 0x34 s)))

abbrev pub timed : Pic → Option Time → Option (Time × Pic)
timed s none = none
timed s (some t) = some (time_to_bin t, start_timer s)

-- The time that is read, which the source keeps in a local variable, and the ports.
unfoldable pub pit_init : (ℕ → ℕ → ℕ) → ℕ → Pic → Option (Time × Pic)
pit_init cmos fuel s = timed s (read_clock cmos fuel 0)
