-- ===== src/Drivers/Hd/Transfer.antt =====
-- What a controller makes of the writes of kern/drivers/hd.c.
use zonix.Prelude.{
  ◌==◌, if◌then◌else◌, beq_self, Bool-cases, ℕ, zero, suc, ◌+◌, ◌*◌, ◌/◌, ◌%◌, ◌^◌, ◌≤◌, ◌<◌, ◌≡◌,
  refl, ap, ◌∙◌, inl, inr, Bool, true, false, false≢true, List, [], ◌∷◌, ◌++◌, arith,
}
use zonix.Drivers.Hd.{
  IdeEvent, outb, insw, outsw, hd_timeout, hd_wait_ready_on_base, hd_wait_data_on_base, drive_sel,
  select_sector, read_sectors, write_sectors, sector_size, sector_words,
}

-- The registers of a controller that say which sectors to transfer.
pub record Registers : Type 0 where
  pub count : ℕ
  pub low : ℕ
  pub mid : ℕ
  pub high : ℕ
  pub device : ℕ
  pub command : ℕ

-- A transfer: whether it is into memory, the base of the port that the data goes through, the command, bit 4 of the
-- device register (the drive), the 28-bit address of the sector, the number of sectors, the place in the
-- caller's buffer and the bytes there that are read or written.
pub data Moved : Type 0 where
  moved : Bool → ℕ → ℕ → ℕ → ℕ → ℕ → ℕ → ℕ → Moved

abbrev pub set_register : ℕ → ℕ → Registers → Registers
set_register reg v r =
    if reg == 2
    then record r { count = v }
    else if reg == 3
    then record r { low = v }
    else if reg == 4
    then record r { mid = v }
    else if reg == 5
    then record r { high = v }
    else if reg == 6
    then record r { device = v }
    else if reg == 7
    then record r { command = v }
    else r

abbrev pub address : Registers → ℕ
address r = r.low + 2 ^ 8 * r.mid + 2 ^ 16 * r.high + 2 ^ 24 * (r.device % 16)

abbrev pub transfer : Bool → ℕ → Registers → ℕ → ℕ → Moved
transfer inward base r offset words =
    moved inward base r.command (r.device / 16 % 2) (address r) r.count offset (2 * words)

-- The transfers of the events, where the registers are those of the controller at `base`.
abbrev pub transfers : ℕ → Registers → List IdeEvent → List Moved
transfers base r [] = []
transfers base r (outb to reg v ∷ es) =
    transfers base (if to == base then set_register reg v r else r) es
transfers base r (insw from offset words ∷ es) =
    transfer true from r offset words ∷ transfers base r es
transfers base r (outsw to offset words ∷ es) =
    transfer false to r offset words ∷ transfers base r es

-- The sectors from `secno + i` on, in order, one at a time, each of 512 bytes at the places from sector `i` of the
-- buffer on.
abbrev pub sectors : Bool → ℕ → ℕ → ℕ → ℕ → ℕ → ℕ → List Moved
sectors inward base command drive secno i zero = []
sectors inward base command drive secno i (suc count) =
    moved inward base command drive (secno + i) 1 (i * 512) 512
    ∷ sectors inward base command drive secno (i + 1) count

abbrev pub selected : ℕ → ℕ → ℕ → Registers
selected sel lba command = record {
  count = 1;
  low = lba % 256;
  mid = lba / 2 ^ 8 % 256;
  high = lba / 2 ^ 16 % 256;
  device = sel + lba / 2 ^ 24 % 16;
  command = command;
}

transfers-select_sector :
    (base sel lba command : ℕ) (r : Registers) (es : List IdeEvent)
    → transfers base r (select_sector base sel lba command ++ es)
      ≡ transfers base (selected sel lba command) es
unfolding select_sector
transfers-select_sector base sel lba command r es = rw (beq_self base) refl

transfers-select_sector_end :
    (base sel lba command : ℕ) (r : Registers)
    → transfers base r (select_sector base sel lba command) ≡ []
unfolding select_sector
transfers-select_sector_end base sel lba command r = refl

address-selected :
    (drive lba command : ℕ) → lba < 2 ^ 28 → address (selected (drive_sel drive) lba command) ≡ lba
address-selected drive lba command h = elim (Bool-cases (drive == 0)) [
  | inl e ↦ rw e (omega arith)
  | inr e ↦ rw e (omega arith)
]

drive-selected :
    (drive lba command : ℕ) → drive < 2 → (drive_sel drive + lba / 2 ^ 24 % 16) / 16 % 2 ≡ drive
drive-selected drive lba command h = ground arith

-- The events move the first `k` of the sectors, in order, and all of them if `ok`.
abbrev pub Prefix : Bool → List IdeEvent → Bool → ℕ → ℕ → ℕ → ℕ → ℕ → ℕ → Type 0
Prefix ok events inward base command drive secno i nsecs =
    (r : Registers)
    → (k : ℕ) × (k ≤ nsecs)
      × (transfers base r events ≡ sectors inward base command drive secno i k)
      × (ok ≡ true → k ≡ nsecs)

pub Prefix-none :
    (events : List IdeEvent) (inward : Bool) (base command drive secno i nsecs : ℕ)
    → ((r : Registers) → transfers base r events ≡ [])
    → Prefix false events inward base command drive secno i nsecs
Prefix-none events inward base command drive secno i nsecs h r =
    (0, ground arith, h r, λ e. absurd (false≢true e))

transfer-selected :
    (inward : Bool) (base drive lba command i : ℕ)
    → drive < 2
    → lba < 2 ^ 28
    → transfer inward base
        (selected (drive_sel drive) (lba % 2 ^ 32) command)
        (i * sector_size)
        sector_words
      ≡ moved inward base command drive lba 1 (i * 512) 512
transfer-selected inward base drive lba command i d h =
    let w : lba % 2 ^ 32 ≡ lba = ground arith in
    rw (w, drive-selected drive lba command d, address-selected drive lba command h) refl

-- One more sector in front.
Prefix-cons :
    (ok inward : Bool) (sent : IdeEvent) (events : List IdeEvent)
    (base command drive secno i nsecs : ℕ)
    → drive < 2
    → secno + i < 2 ^ 28
    → ((r : Registers)
        → transfers base r (sent ∷ events)
          ≡ transfer inward base r (i * sector_size) sector_words ∷ transfers base r events)
    → Prefix ok events inward base command drive secno (i + 1) nsecs
    → Prefix ok
        (select_sector base (drive_sel drive) ((secno + i) % 2 ^ 32) command ++ sent ∷ events)
        inward
        base
        command
        drive
        secno
        i
        (suc nsecs)
Prefix-cons ok inward sent events base command drive secno i nsecs d h t rest r =
    let lba = (secno + i) % 2 ^ 32 in
    let sel = selected (drive_sel drive) lba command in
    let (k, le, moves, all) = rest sel in
    (
      suc k,
      ground arith,
      transfers-select_sector base (drive_sel drive) lba command r (sent ∷ events)
          ∙ t sel
          ∙ rw (transfer-selected inward base drive (secno + i) command i d h, moves) refl,
      λ e. ap suc (all e),
    )

pub read_sectors-Prefix :
    (status : ℕ → ℕ) (base drive secno i nsecs n : ℕ)
    → drive < 2
    → secno + i + nsecs ≤ 2 ^ 28
    → Prefix
        (read_sectors status base (drive_sel drive) secno i nsecs n).0
        (read_sectors status base (drive_sel drive) secno i nsecs n).2
        true
        base
        0x20
        drive
        secno
        i
        nsecs
unfolding read_sectors
read_sectors-Prefix status base drive secno i zero n d h = λ r. (0, ground arith, refl, λ e. refl)
read_sectors-Prefix status base drive secno i (suc nsecs) n d h =
    let n1 = (hd_wait_ready_on_base status hd_timeout n).1 in
    let n2 = (hd_wait_data_on_base status hd_timeout n1).1 in
    let rest = read_sectors status base (drive_sel drive) secno (i + 1) nsecs n2 in
    elim (Bool-cases (hd_wait_ready_on_base status hd_timeout n).0) [
      | inr e ↦ rw e (Prefix-none [] true base 0x20 drive secno i (suc nsecs) (λ r. refl))
      | inl e ↦ rw e (elim (Bool-cases (hd_wait_data_on_base status hd_timeout n1).0) [
        | inr e ↦ rw e (
            Prefix-none (select_sector base (drive_sel drive) ((secno + i) % 2 ^ 32) 0x20) true base
              0x20 drive secno i (suc nsecs)
              (λ r.
                transfers-select_sector_end base (drive_sel drive) ((secno + i) % 2 ^ 32) 0x20 r))
        | inl e ↦ rw e (
            Prefix-cons rest.0 true (insw base (i * sector_size) sector_words) rest.2 base 0x20
              drive secno i nsecs d (ground arith) (λ r. refl)
              (read_sectors-Prefix status base drive secno (i + 1) nsecs n2 d (ground arith)))
      ])
    ]

pub write_sectors-Prefix :
    (status : ℕ → ℕ) (base drive secno i nsecs n : ℕ)
    → drive < 2
    → secno + i + nsecs ≤ 2 ^ 28
    → Prefix
        (write_sectors status base (drive_sel drive) secno i nsecs n).0
        (write_sectors status base (drive_sel drive) secno i nsecs n).2
        false
        base
        0x30
        drive
        secno
        i
        nsecs
unfolding write_sectors
write_sectors-Prefix status base drive secno i zero n d h = λ r. (0, ground arith, refl, λ e. refl)
write_sectors-Prefix status base drive secno i (suc nsecs) n d h =
    let n1 = (hd_wait_ready_on_base status hd_timeout n).1 in
    let n2 = (hd_wait_data_on_base status hd_timeout n1).1 in
    let n3 = (hd_wait_ready_on_base status hd_timeout n2).1 in
    let rest = write_sectors status base (drive_sel drive) secno (i + 1) nsecs n3 in
    elim (Bool-cases (hd_wait_ready_on_base status hd_timeout n).0) [
      | inr e ↦ rw e (Prefix-none [] false base 0x30 drive secno i (suc nsecs) (λ r. refl))
      | inl e ↦ rw e (elim (Bool-cases (hd_wait_data_on_base status hd_timeout n1).0) [
        | inr e ↦ rw e (
            Prefix-none (select_sector base (drive_sel drive) ((secno + i) % 2 ^ 32) 0x30) false
              base 0x30 drive secno i (suc nsecs)
              (λ r.
                transfers-select_sector_end base (drive_sel drive) ((secno + i) % 2 ^ 32) 0x30 r))
        | inl e ↦ rw e (elim (Bool-cases (hd_wait_ready_on_base status hd_timeout n2).0) [
          | inr e ↦ rw e (
              Prefix-cons false false (outsw base (i * sector_size) sector_words) [] base 0x30 drive
                secno i nsecs d (ground arith) (λ r. refl)
                (Prefix-none [] false base 0x30 drive secno (i + 1) nsecs (λ r. refl)))
          | inl e ↦ rw e (
              Prefix-cons rest.0 false (outsw base (i * sector_size) sector_words) rest.2 base 0x30
                drive secno i nsecs d (ground arith) (λ r. refl)
                (write_sectors-Prefix status base drive secno (i + 1) nsecs n3 d (ground arith)))
        ])
      ])
    ]
