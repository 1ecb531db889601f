-- ===== src/Drivers/Hd/Device.antt =====
-- The operations of kern/drivers/hd.c on a device.
use zonix.Prelude.{
  leb, ℕ, zero, suc, ◌+◌, ◌%◌, ◌^◌, ◌≤◌, ◌<◌, ◌≡◌, refl, sym, subst, Bool, true, false, ◌&&◌, arith,
}
use zonix.Drivers.Hd.{
  IdeDevice, is_ready, has_data, has_error, hd_timeout, hd_wait_ready_on_base, hd_wait_data_on_base,
  drive_sel, read_sectors, write_sectors, in_device, hd_read_device, hd_write_device,
}

-- A wait ends well if its first read is good.
wait_ready_good :
    (status : ℕ → ℕ) (t n : ℕ)
    → is_ready (status n) ≡ true
    → (hd_wait_ready_on_base status (suc t) n).0 ≡ true
unfolding hd_wait_ready_on_base
wait_ready_good status t n h =
    subst
      (λ b.
        (elim b as (λ x. Bool × ℕ) [
          | true ↦ (true, n + 1)
          | false ↦ hd_wait_ready_on_base status t (n + 1)
        ]).0
        ≡ true)
      (sym h) refl

wait_data_good :
    (status : ℕ → ℕ) (t n : ℕ)
    → has_data (status n) ≡ true
    → (hd_wait_data_on_base status (suc t) n).0 ≡ true
unfolding hd_wait_data_on_base
wait_data_good status t n h =
    subst
      (λ b.
        (elim b as (λ x. Bool × ℕ) [
          | true ↦ (true, n + 1)
          | false ↦ elim (has_error (status n)) as (λ x. Bool × ℕ) [
            | true ↦ (false, n + 1)
            | false ↦ hd_wait_data_on_base status t (n + 1)
          ]
        ]).0
        ≡ true)
      (sym h) refl

read_sectors-good :
    (status : ℕ → ℕ) (base sel secno i nsecs n : ℕ)
    → ((j : ℕ) → is_ready (status j) ≡ true)
    → ((j : ℕ) → has_data (status j) ≡ true)
    → (read_sectors status base sel secno i nsecs n).0 ≡ true
unfolding read_sectors
read_sectors-good status base sel secno i zero n r d = refl
read_sectors-good status base sel secno i (suc nsecs) n r d =
    let n1 = (hd_wait_ready_on_base status hd_timeout n).1 in
    let n2 = (hd_wait_data_on_base status hd_timeout n1).1 in
    rw (wait_ready_good status 99999 n (r n), wait_data_good status 99999 n1 (d n1))
      (read_sectors-good status base sel secno (i + 1) nsecs n2 r d)

-- A read of a range inside a device that is there returns 0, if the drive is always ready and has
-- data.
pub hd_read_device-good :
    (status : ℕ → ℕ) (dev : IdeDevice) (secno nsecs n : ℕ)
    → ((j : ℕ) → is_ready (status j) ≡ true)
    → ((j : ℕ) → has_data (status j) ≡ true)
    → dev.present ≡ true
    → secno + nsecs ≤ dev.size
    → dev.size < 2 ^ 32
    → (hd_read_device status dev secno nsecs n).0 ≡ true
unfolding hd_read_device in_device
hd_read_device-good status dev secno nsecs n r d p h w =
    let t : (dev.present && leb ((secno + nsecs) % 2 ^ 32) dev.size) ≡ true = ground arith in
    rw t (read_sectors-good status dev.base (drive_sel dev.drive) secno 0 nsecs n r d)

write_sectors-good :
    (status : ℕ → ℕ) (base sel secno i nsecs n : ℕ)
    → ((j : ℕ) → is_ready (status j) ≡ true)
    → ((j : ℕ) → has_data (status j) ≡ true)
    → (write_sectors status base sel secno i nsecs n).0 ≡ true
unfolding write_sectors
write_sectors-good status base sel secno i zero n r d = refl
write_sectors-good status base sel secno i (suc nsecs) n r d =
    let n1 = (hd_wait_ready_on_base status hd_timeout n).1 in
    let n2 = (hd_wait_data_on_base status hd_timeout n1).1 in
    let n3 = (hd_wait_ready_on_base status hd_timeout n2).1 in
    rw
      (
        wait_ready_good status 99999 n (r n),
        wait_data_good status 99999 n1 (d n1),
        wait_ready_good status 99999 n2 (r n2),
      )
      (write_sectors-good status base sel secno (i + 1) nsecs n3 r d)

-- So does a write.
pub hd_write_device-good :
    (status : ℕ → ℕ) (dev : IdeDevice) (secno nsecs n : ℕ)
    → ((j : ℕ) → is_ready (status j) ≡ true)
    → ((j : ℕ) → has_data (status j) ≡ true)
    → dev.present ≡ true
    → secno + nsecs ≤ dev.size
    → dev.size < 2 ^ 32
    → (hd_write_device status dev secno nsecs n).0 ≡ true
unfolding hd_write_device in_device
hd_write_device-good status dev secno nsecs n r d p h w =
    let t : (dev.present && leb ((secno + nsecs) % 2 ^ 32) dev.size) ≡ true = ground arith in
    rw t (write_sectors-good status dev.base (drive_sel dev.drive) secno 0 nsecs n r d)

-- The range check is on 32 bits: a range whose end is 2 ^ 32 passes it on every device that is there.
pub in_device_wrap :
    (dev : IdeDevice) (secno nsecs : ℕ)
    → dev.present ≡ true
    → secno + nsecs ≡ 2 ^ 32
    → in_device dev secno nsecs ≡ true
unfolding in_device
in_device_wrap dev secno nsecs p e = rw e (ground arith)
