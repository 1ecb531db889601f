-- ===== src/Drivers/Hd.antt =====
-- kern/drivers/hd.c: IDE disks. The value that the n-th read of a status register gives is the
-- parameter `status`. The writes to registers and the transfers of data are kept in order.
pub mod Transfer
pub mod Device
pub mod Detect
pub mod SelfTest
use zonix.Prelude.{
  leb, ◌==◌, if◌then◌else◌, ℕ, zero, suc, ◌+◌, ◌*◌, ◌/◌, ◌%◌, ◌^◌, Bool, true, false, not, ◌&&◌,
  List, [], ◌∷◌, ◌++◌,
}

abbrev pub max_ide_devices : ℕ
max_ide_devices = 4

abbrev pub sector_size : ℕ
sector_size = 512

abbrev pub sector_words : ℕ
sector_words = 256

-- `info` is its four numbers; the name is its characters before the first 0.
pub record IdeDevice : Type 0 where
  pub channel : ℕ
  pub drive : ℕ
  pub base : ℕ
  pub irq : ℕ
  pub size : ℕ
  pub cylinders : ℕ
  pub heads : ℕ
  pub sectors : ℕ
  pub present : Bool
  pub name : List ℕ

-- `outb(base + register, value)`, and `insw` and `outsw` with the offset in the caller's buffer.
pub data IdeEvent : Type 0 where
  outb : ℕ → ℕ → ℕ → IdeEvent
  insw : ℕ → ℕ → ℕ → IdeEvent
  outsw : ℕ → ℕ → ℕ → IdeEvent

abbrev pub bit : ℕ → ℕ → ℕ
bit n k = n / 2 ^ k % 2

-- `(status & (IDE_BSY | IDE_DRDY)) == IDE_DRDY`
abbrev pub is_ready : ℕ → Bool
is_ready status = (bit status 7 == 0) && (bit status 6 == 1)

-- `(status & (IDE_BSY | IDE_DRQ)) == IDE_DRQ`
abbrev pub has_data : ℕ → Bool
has_data status = (bit status 7 == 0) && (bit status 3 == 1)

abbrev pub has_error : ℕ → Bool
has_error status = bit status 0 == 1

abbrev pub hd_timeout : ℕ
hd_timeout = 100000

-- Whether the status was good in time, and the number of status reads after it.
unfoldable pub hd_wait_ready_on_base : (ℕ → ℕ) → ℕ → ℕ → Bool × ℕ
hd_wait_ready_on_base status zero n = (false, n)
hd_wait_ready_on_base status (suc timeout) n = elim (is_ready (status n)) [
  | true ↦ (true, n + 1)
  | false ↦ hd_wait_ready_on_base status timeout (n + 1)
]

unfoldable pub hd_wait_data_on_base : (ℕ → ℕ) → ℕ → ℕ → Bool × ℕ
hd_wait_data_on_base status zero n = (false, n)
hd_wait_data_on_base status (suc timeout) n = elim (has_data (status n)) [
  | true ↦ (true, n + 1)
  | false ↦ elim (has_error (status n)) [
    | true ↦ (false, n + 1)
    | false ↦ hd_wait_data_on_base status timeout (n + 1)
  ]
]

abbrev pub drive_sel : ℕ → ℕ
drive_sel drive = if drive == 0 then 0xE0 else 0xF0

-- The writes that choose one sector and start a command. The low half of `sel` is clear, so `|` is a
-- sum.
unfoldable pub select_sector : ℕ → ℕ → ℕ → ℕ → List IdeEvent
select_sector base sel lba command =
    outb base 2 1
    ∷ outb base 3 (lba % 256)
    ∷ outb base 4 (lba / 2 ^ 8 % 256)
    ∷ outb base 5 (lba / 2 ^ 16 % 256)
    ∷ outb base 6 (sel + lba / 2 ^ 24 % 16)
    ∷ outb base 7 command
    ∷ []

-- The loop of `hd_read_device` from sector `i` on, with `nsecs` sectors to go.
unfoldable pub read_sectors : (ℕ → ℕ) → ℕ → ℕ → ℕ → ℕ → ℕ → ℕ → Bool × ℕ × List IdeEvent
read_sectors status base sel secno i zero n = (true, n, [])
read_sectors status base sel secno i (suc nsecs) n =
    let (ready, n1) = hd_wait_ready_on_base status hd_timeout n in
    let (data_ready, n2) = hd_wait_data_on_base status hd_timeout n1 in
    let (ok, n3, events) = read_sectors status base sel secno (i + 1) nsecs n2 in
    let setup = select_sector base sel ((secno + i) % 2 ^ 32) 0x20 in
    if not ready
    then (false, n1, [])
    else if not data_ready
    then (false, n2, setup)
    else (ok, n3, setup ++ insw base (i * sector_size) sector_words ∷ events)

-- The loop of `hd_write_device`.
unfoldable pub write_sectors : (ℕ → ℕ) → ℕ → ℕ → ℕ → ℕ → ℕ → ℕ → Bool × ℕ × List IdeEvent
write_sectors status base sel secno i zero n = (true, n, [])
write_sectors status base sel secno i (suc nsecs) n =
    let (ready, n1) = hd_wait_ready_on_base status hd_timeout n in
    let (data_ready, n2) = hd_wait_data_on_base status hd_timeout n1 in
    let (done, n3) = hd_wait_ready_on_base status hd_timeout n2 in
    let (ok, n4, events) = write_sectors status base sel secno (i + 1) nsecs n3 in
    let setup = select_sector base sel ((secno + i) % 2 ^ 32) 0x30 in
    let sent = outsw base (i * sector_size) sector_words in
    if not ready
    then (false, n1, [])
    else if not data_ready
    then (false, n2, setup)
    else if not done
    then (false, n3, setup ++ sent ∷ [])
    else (ok, n4, setup ++ sent ∷ events)

-- The guards of both: `false` is the result -1.
unfoldable pub in_device : IdeDevice → ℕ → ℕ → Bool
in_device dev secno nsecs = dev.present && leb ((secno + nsecs) % 2 ^ 32) dev.size

unfoldable pub hd_read_device : (ℕ → ℕ) → IdeDevice → ℕ → ℕ → ℕ → Bool × ℕ × List IdeEvent
hd_read_device status dev secno nsecs n =
    if in_device dev secno nsecs
    then read_sectors status dev.base (drive_sel dev.drive) secno 0 nsecs n
    else (false, n, [])

unfoldable pub hd_write_device : (ℕ → ℕ) → IdeDevice → ℕ → ℕ → ℕ → Bool × ℕ × List IdeEvent
hd_write_device status dev secno nsecs n =
    if in_device dev secno nsecs
    then write_sectors status dev.base (drive_sel dev.drive) secno 0 nsecs n
    else (false, n, [])
