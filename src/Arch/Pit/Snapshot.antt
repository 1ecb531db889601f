-- ===== src/Arch/Pit/Snapshot.antt =====
-- The time that kern/drivers/pit.c reads is that of one instant.
use zonix.Prelude.{
  ◌==◌, Bool-cases, ℕ, zero, suc, ◌+◌, ◌*◌, ◌/◌, ◌%◌, ◌≤◌, ◌<◌, ◌≡◌, refl, sym, ap, ◌∙◌, inl, inr,
  Bool, true, false, Option, some, arith,
}
use zonix.Drivers.Pic.{Pic}
use zonix.Drivers.Pic.Mask.{masked, pic_enable-masked}
use zonix.Arch.Pit.{
  Time, bcd_to_bin, read_time, read_clock, time_to_bin, start_timer, timed, pit_init,
}

-- Two decimal digits in a byte, as the clock keeps them.
abbrev pub bcd : ℕ → ℕ
bcd v = v / 10 * 16 + v % 10

-- The clock counts seconds, at read `n` it stands at `second n`; its registers show the fields of that second,
-- each below 100 and in decimal digits.
pub record Clock (cmos : ℕ → ℕ → ℕ) (second : ℕ → ℕ) (field : ℕ → ℕ → ℕ) : Type 0 where
  pub shows : (n a : ℕ) → cmos n a ≡ bcd (field (second n) a)
  pub digits : (s a : ℕ) → field s a < 100
  pub seconds : (s : ℕ) → field s 0 ≡ s % 60
  pub later : (m n : ℕ) → m ≤ n → second m ≤ second n
  pub quick : (n : ℕ) → second (n + 6) < second n + 60

-- The fields of one second.
abbrev pub time_at : (ℕ → ℕ → ℕ) → ℕ → Time
time_at field s = record {
  tm_sec = field s 0;
  tm_min = field s 2;
  tm_hour = field s 4;
  tm_mday = field s 7;
  tm_mon = field s 8;
  tm_year = field s 9;
}

bcd_to_bin-bcd : (v : ℕ) → bcd_to_bin (bcd v) ≡ v
bcd_to_bin-bcd v = omega arith

module _ (cmos : ℕ → ℕ → ℕ) (second : ℕ → ℕ) (field : ℕ → ℕ → ℕ) (c : Clock cmos second field) where
  -- If the seconds are the same before and after a turn, no second has passed in it.
  still : (n i : ℕ) → i ≤ 6 → cmos n 0 ≡ cmos (n + 6) 0 → second (n + i) ≡ second n
  still n i b e =
      let whole = c.later n (n + 6) (omega arith) in
      let part = c.later n (n + i) (omega arith) in
      let rest = c.later (n + i) (n + 6) (omega arith) in
      omega (
        arith,
        c.shows n 0,
        c.shows (n + 6) 0,
        e,
        c.seconds (second n),
        c.seconds (second (n + 6)),
        c.quick n,
        whole,
        part,
        rest,
      )

  shown :
      (n i a : ℕ)
      → i ≤ 6
      → cmos n 0 ≡ cmos (n + 6) 0
      → bcd_to_bin (cmos (n + i) a) ≡ field (second n) a
  shown n i a b e =
      ap bcd_to_bin (c.shows (n + i) a)
      ∙ bcd_to_bin-bcd (field (second (n + i)) a)
      ∙ ap (λ s. field s a) (still n i b e)

  read_time-at :
      (n : ℕ)
      → cmos n 0 ≡ cmos (n + 6) 0
      → time_to_bin (read_time cmos n) ≡ time_at field (second n)
  read_time-at n e =
      let first : bcd_to_bin (cmos n 0) ≡ field (second n) 0 =
        ap bcd_to_bin (c.shows n 0) ∙ bcd_to_bin-bcd (field (second n) 0) in
      rw
        (
          first,
          shown n 1 2 (omega arith) e,
          shown n 2 4 (omega arith) e,
          shown n 3 7 (omega arith) e,
          shown n 4 8 (omega arith) e,
          shown n 5 9 (omega arith) e,
        )
        refl

  -- What a run from read `n` on gives if a second does not end in turn `k`.
  abbrev ReadsTime : ℕ → ℕ → ℕ → Type 0
  ReadsTime fuel n k =
      (j : ℕ) × (t : Time) × (j ≤ k)
      × (read_clock cmos fuel n ≡ some t)
      × (time_to_bin t ≡ time_at field (second (n + 7 * j)))

  abbrev turn : ℕ → ℕ → Bool → Option Time
  turn fuel n b = elim b [ true ↦ some (read_time cmos n) | false ↦ read_clock cmos fuel (n + 7) ]

  read_clock-time :
      (fuel n k : ℕ) → k < fuel → second (n + 7 * k + 6) ≡ second (n + 7 * k) → ReadsTime fuel n k
  unfolding read_clock
  read_clock-time zero n k f e = absurd (omega arith)
  read_clock-time (suc fuel) n zero f e =
      let at : second (n + 6) ≡ second n = ap second (omega arith) ∙ e ∙ ap second (omega arith) in
      let same : cmos n 0 ≡ cmos (n + 6) 0 =
        c.shows n 0 ∙ ap (λ s. bcd (field s 0)) (sym at) ∙ sym (c.shows (n + 6) 0) in
      let test : (cmos n 0 == cmos (n + 6) 0) ≡ true = ground arith in
      (
        0,
        read_time cmos n,
        omega arith,
        ap (turn fuel n) test,
        read_time-at n same ∙ ap (λ p. time_at field (second p)) (omega arith),
      )
  read_clock-time (suc fuel) n (suc k) f e = elim (Bool-cases (cmos n 0 == cmos (n + 6) 0)) [
    | inl test ↦ (
      0,
      read_time cmos n,
      omega arith,
      ap (turn fuel n) test,
      read_time-at n (ground arith) ∙ ap (λ p. time_at field (second p)) (omega arith),
    )
    | inr test ↦
        let (j, t, le, run, time) =
          read_clock-time fuel (n + 7) k (omega arith)
            (ap second (omega arith) ∙ e ∙ ap second (omega arith)) in
        (
          suc j,
          t,
          omega arith,
          ap (turn fuel n) test ∙ run,
          time ∙ ap (λ p. time_at field (second p)) (omega arith),
        )
  ]

  -- If in some turn of the loop, with fuel for it, no second ends, and a turn takes less than a minute, then
  -- `pit_init` returns; the time, in plain numbers, has all its fields from one instant, the start of a turn up to
  -- that one, and the line of the timer is not masked.
  pub pit_init-time :
      (fuel k : ℕ) (s : Pic)
      → k < fuel
      → second (7 * k + 6) ≡ second (7 * k)
      → (j : ℕ) × (j ≤ k)
        × (pit_init cmos fuel s ≡ some (time_at field (second (7 * j)), start_timer s))
        × (masked (start_timer s).ports 0 ≡ 0)
  unfolding pit_init start_timer
  pit_init-time fuel k s f e =
      let (j, t, le, run, time) =
        read_clock-time fuel 0 k f (ap second (omega arith) ∙ e ∙ ap second (omega arith)) in
      (
        j,
        le,
        ap (timed s) run
            ∙ ap (λ x. some (x, start_timer s))
                (time ∙ ap (λ p. time_at field (second p)) (omega arith)),
        (pic_enable-masked 0 0 _ (omega arith)).0,
      )
