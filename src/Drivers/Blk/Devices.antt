-- ===== src/Drivers/Blk/Devices.antt =====
-- The registry of kern/drivers/blk.c as the list of the devices registered.
use zonix.Prelude.{
  ltb, leb, ◌==◌, if◌then◌else◌, Bool-cases, length, length-append, ℕ, zero, suc, ◌+◌, ◌*◌, ◌/◌,
  ◌%◌, ◌^◌, ◌≤◌, ◌<◌, ◌≡◌, refl, ap, ◌∙◌, subst, inl, inr, Bool, true, false, Option, none, some,
  List, [], ◌∷◌, ◌++◌, append-nil, append_assoc, arith,
}
use zonix.Drivers.Hd.{IdeDevice}
use zonix.Drivers.Blk.{
  max_blk_dev, BlockDevice, Registry, store_device, blk_register, find_device, blk_get_device,
  disk_dev, register_disk, register_disks, blk_init, listed_size,
}

abbrev pub At : (ℕ → Option BlockDevice) → ℕ → List BlockDevice → Type 0
At devices i [] = Unit {0}
At devices i (d ∷ ds) = (devices i ≡ some d) × At devices (i + 1) ds

-- The registry holds the devices in the order they were registered.
abbrev pub Holds : Registry → List BlockDevice → Type 0
Holds r ds = (r.num_devices ≡ length ds) × (length ds ≤ max_blk_dev) × At r.block_devices 0 ds

abbrev pub first_of_type : ℕ → List BlockDevice → Option BlockDevice
first_of_type t [] = none
first_of_type t (d ∷ ds) = if d.typ == t then some d else first_of_type t ds

-- The registry after one more device, if there is room.
abbrev pub registered : BlockDevice → List BlockDevice → Bool × List BlockDevice
registered d ds = if ltb (length ds) max_blk_dev then (true, ds ++ d ∷ []) else (false, ds)

At-store_device :
    (devices : ℕ → Option BlockDevice) (d : BlockDevice) (i p : ℕ) (ds : List BlockDevice)
    → p ≡ i + length ds
    → At devices i ds
    → At (store_device devices p d) i (ds ++ d ∷ [])
At-store_device devices d i p [] e a = let t : (i == p) ≡ true = ground arith in (rw t refl, tt)
At-store_device devices d i p (x ∷ ds) e a =
    let t : (i == p) ≡ false = ground arith in
    (rw t a.0, At-store_device devices d (i + 1) p ds (ground arith) a.1)

-- `blk_register` appends the device if fewer than four are registered, and otherwise returns -1 and
-- changes nothing.
pub blk_register-Holds :
    (d : BlockDevice) (r : Registry) (ds : List BlockDevice)
    → Holds r ds
    → ((blk_register d r).0 ≡ (registered d ds).0) × Holds (blk_register d r).1 (registered d ds).1
unfolding blk_register
blk_register-Holds d r ds (e, b, a) = elim (Bool-cases (ltb (length ds) max_blk_dev)) [
  | inl h ↦
      let t : leb max_blk_dev r.num_devices ≡ false = ground arith in
      rw (h, t)
        (
          refl,
          (
            ground (arith, length-append ds (d ∷ [])),
            ground (arith, length-append ds (d ∷ [])),
            At-store_device r.block_devices d 0 r.num_devices ds (ground arith) a,
          ),
        )
  | inr h ↦
      let t : leb max_blk_dev r.num_devices ≡ true = ground arith in rw (h, t) (refl, (e, b, a))
]

find_device-At :
    (t : ℕ) (r : Registry) (i : ℕ) (ds : List BlockDevice)
    → At r.block_devices i ds
    → find_device t r i (length ds) ≡ first_of_type t ds
unfolding find_device
find_device-At t r i [] a = refl
find_device-At t r i (d ∷ ds) a = rw (a.0, find_device-At t r (i + 1) ds a.1) refl

-- `blk_get_device` gives the device of the type that was registered first, and NULL if there is none.
pub blk_get_device-Holds :
    (t : ℕ) (r : Registry) (ds : List BlockDevice)
    → Holds r ds
    → blk_get_device t r ≡ first_of_type t ds
unfolding blk_get_device
blk_get_device-Holds t r ds (e, b, a) = ap (find_device t r 0) e ∙ find_device-At t r 0 ds a

-- The sizes column shows tenths of 2 ^ 20 bytes, rounded down, for a disk of less than 2 ^ 23 blocks.
pub listed_size_lem :
    (size : ℕ)
    → size < 2 ^ 23
    → (10 * (listed_size size).0 + (listed_size size).1 ≡ 10 * size / 2048)
      × ((listed_size size).1 < 10)
unfolding listed_size
listed_size_lem size h = (omega arith, omega arith)

-- A disk that has 2 ^ 23 blocks (4 GiB) more is shown with the same size.
pub listed_size_wrap : (size : ℕ) → listed_size (size + 2 ^ 23) ≡ listed_size size
unfolding listed_size
listed_size_wrap size =
    let t : (size + 2 ^ 23) * 512 % 2 ^ 32 ≡ size * 512 % 2 ^ 32 = omega arith in rw t refl

abbrev pub disk_or_none : ℕ → Option IdeDevice → List BlockDevice
disk_or_none i none = []
disk_or_none i (some ide_dev) = if ide_dev.present then disk_dev i ide_dev ∷ [] else []

-- The disks that are there among the `n` from disk `i` on.
abbrev pub present_disks : (ℕ → Option IdeDevice) → ℕ → ℕ → List BlockDevice
present_disks hd i zero = []
present_disks hd i (suc n) = disk_or_none i (hd i) ++ present_disks hd (i + 1) n

register_disk-Holds :
    (i : ℕ) (o : Option IdeDevice) (r : Registry) (ds : List BlockDevice)
    → Holds r ds
    → length ds < max_blk_dev
    → Holds (register_disk i o r) (ds ++ disk_or_none i o)
register_disk-Holds i none r ds h b = rw (append-nil ds) h
register_disk-Holds i (some ide_dev) r ds h b = elim (Bool-cases ide_dev.present) [
  | inl p ↦
      let room : ltb (length ds) max_blk_dev ≡ true = ground arith in
      let dev = disk_dev i ide_dev in
      let e : registered dev ds ≡ (true, ds ++ dev ∷ []) = rw room refl in
      rw p (subst (λ x. Holds (blk_register dev r).1 x.1) e (blk_register-Holds dev r ds h).1)
  | inr p ↦ rw p (rw (append-nil ds) h)
]

length-disk_or_none : (i : ℕ) (o : Option IdeDevice) → length (disk_or_none i o) ≤ 1
length-disk_or_none i none = ground arith
length-disk_or_none i (some ide_dev) = ground arith

register_disks-Holds :
    (hd : ℕ → Option IdeDevice) (i n : ℕ) (r : Registry) (ds : List BlockDevice)
    → Holds r ds
    → length ds + n ≤ max_blk_dev
    → Holds (register_disks hd i n r) (ds ++ present_disks hd i n)
unfolding register_disks
register_disks-Holds hd i zero r ds h b = rw (append-nil ds) h
register_disks-Holds hd i (suc n) r ds h b =
    rw (← append_assoc ds (disk_or_none i (hd i)) (present_disks hd (i + 1) n)) (
      register_disks-Holds hd (i + 1) n (register_disk i (hd i) r) (ds ++ disk_or_none i (hd i))
        (register_disk-Holds i (hd i) r ds h (ground arith))
        (ground (arith, length-append ds (disk_or_none i (hd i)), length-disk_or_none i (hd i))))

-- `blk_init` registers, in order, the disks that are there among the first `num_hd`, and no disk from
-- number `num_hd` on.
pub blk_init-Holds :
    (hd : ℕ → Option IdeDevice) (num_hd : ℕ)
    → num_hd ≤ max_blk_dev
    → Holds (blk_init hd num_hd) (present_disks hd 0 num_hd)
unfolding blk_init
blk_init-Holds hd num_hd h =
    let empty : Registry = record { block_devices = λ i. none; num_devices = 0 } in
    let count : (if ltb num_hd max_blk_dev then num_hd else max_blk_dev) ≡ num_hd = ground arith in
    rw count (register_disks-Holds hd 0 num_hd empty [] (refl, ground arith, tt) (ground arith))
