-- ===== src/Drivers/Blk.antt =====
-- kern/drivers/blk.c: the registry of block devices. A device is the value of its fields; the functions
-- behind its pointers are parameters of the operations.
pub mod Devices
pub mod Listing
use zonix.Prelude.{
  ltb, leb, ◌==◌, if◌then◌else◌, ℕ, zero, suc, ◌+◌, ◌*◌, ◌/◌, ◌%◌, ◌^◌, Bool, true, false, Option,
  none, some, List,
}
use zonix.Drivers.Hd.{IdeDevice}

abbrev pub max_blk_dev : ℕ
max_blk_dev = 4

abbrev pub blk_type_disk : ℕ
blk_type_disk = 1

-- `read` and `write` say whether the pointer is there.
pub record BlockDevice : Type 0 where
  pub typ : ℕ
  pub size : ℕ
  pub name : List ℕ
  pub private_data : ℕ
  pub read : Bool
  pub write : Bool

pub record Registry : Type 0 where
  pub block_devices : ℕ → Option BlockDevice
  pub num_devices : ℕ

abbrev pub store_device : (ℕ → Option BlockDevice) → ℕ → BlockDevice → ℕ → Option BlockDevice
store_device devices i dev j = if j == i then some dev else devices j

-- `false` is the result -1.
unfoldable pub blk_register : BlockDevice → Registry → Bool × Registry
blk_register dev r = if leb max_blk_dev r.num_devices then (false, r) else (
  true,
  record {
    block_devices = store_device r.block_devices r.num_devices dev;
    num_devices = r.num_devices + 1;
  },
)

abbrev pub has_type : ℕ → Option BlockDevice → Bool
has_type t none = false
has_type t (some d) = d.typ == t

-- The loop of `blk_get_device` from place `i` on, with `n` places to go.
unfoldable pub find_device : ℕ → Registry → ℕ → ℕ → Option BlockDevice
find_device t r i zero = none
find_device t r i (suc n) =
    let rest = find_device t r (i + 1) n in
    if has_type t (r.block_devices i) then r.block_devices i else rest

unfoldable pub blk_get_device : ℕ → Registry → Option BlockDevice
blk_get_device t r = find_device t r 0 r.num_devices

-- `hd` is `hd_read_device`: by device, block number and count, whether it returned 0. The wrapper
-- passes on the device's number.
abbrev pub disk_read_wrapper : (ℕ → ℕ → ℕ → Bool) → BlockDevice → ℕ → ℕ → Bool
disk_read_wrapper hd dev blockno nblocks = hd dev.private_data blockno nblocks

unfoldable pub blk_read : (ℕ → ℕ → ℕ → Bool) → Option BlockDevice → ℕ → ℕ → Bool
blk_read hd none blockno nblocks = false
blk_read hd (some dev) blockno nblocks =
    if dev.read then disk_read_wrapper hd dev blockno nblocks else false

abbrev pub disk_write_wrapper : (ℕ → ℕ → ℕ → Bool) → BlockDevice → ℕ → ℕ → Bool
disk_write_wrapper hd dev blockno nblocks = hd dev.private_data blockno nblocks

unfoldable pub blk_write : (ℕ → ℕ → ℕ → Bool) → Option BlockDevice → ℕ → ℕ → Bool
blk_write hd none blockno nblocks = false
blk_write hd (some dev) blockno nblocks =
    if dev.write then disk_write_wrapper hd dev blockno nblocks else false

-- The record that `blk_init` fills for disk `i`.
abbrev pub disk_dev : ℕ → IdeDevice → BlockDevice
disk_dev i ide_dev = record {
  typ = blk_type_disk;
  size = ide_dev.size;
  name = ide_dev.name;
  private_data = i;
  read = true;
  write = true;
}

-- The body of the loop of `blk_init`, for what `hd_get_device` gives.
abbrev pub register_disk : ℕ → Option IdeDevice → Registry → Registry
register_disk i none r = r
register_disk i (some ide_dev) r =
    if ide_dev.present then (blk_register (disk_dev i ide_dev) r).1 else r

-- The loop from disk `i` on, with `n` to go.
unfoldable pub register_disks : (ℕ → Option IdeDevice) → ℕ → ℕ → Registry → Registry
register_disks hd i zero r = r
register_disks hd i (suc n) r = register_disks hd (i + 1) n (register_disk i (hd i) r)

unfoldable pub blk_init : (ℕ → Option IdeDevice) → ℕ → Registry
blk_init hd num_hd =
    register_disks hd 0 (if ltb num_hd max_blk_dev then num_hd else max_blk_dev)
      (record { block_devices = λ i. none; num_devices = 0 })

-- The two numbers of the size column of `blk_list_devices`.
unfoldable pub listed_size : ℕ → ℕ × ℕ
listed_size size =
    let size_bytes = size * 512 % 2 ^ 32 in
    let size_mb = size_bytes / 2 ^ 20 in
    let remainder = size_bytes % 2 ^ 20 in (size_mb, remainder * 10 % 2 ^ 32 / 2 ^ 20)
