-- ===== src/Drivers/Hd/Detect.antt =====
-- The detection of disks in kern/drivers/hd.c. The words that a drive gives for IDENTIFY are the
-- parameter `words`, by device number and place.
use zonix.Prelude.{
  ltb, ◌==◌, if◌then◌else◌, length, get_or, codes, ℕ, zero, suc, ◌+◌, ◌*◌, ◌/◌, ◌%◌, ◌^◌, ◌≡◌, refl,
  ap, true, not, ◌||◌, Option, none, some, List, [], ◌∷◌, ◌++◌,
}
use zonix.Drivers.Hd.{
  max_ide_devices, IdeDevice, IdeEvent, outb, insw, hd_timeout, hd_wait_data_on_base, drive_sel,
}

-- The columns of `ide_configs`.
abbrev pub config_channel : ℕ → ℕ
config_channel dev_id = dev_id / 2

abbrev pub config_irq : ℕ → ℕ
config_irq dev_id = if ltb dev_id 2 then 14 else 15

abbrev pub config_name : ℕ → List ℕ
config_name dev_id = get_or (codes "hda" ∷ codes "hdb" ∷ codes "hdc" ∷ codes "hdd" ∷ []) dev_id []

abbrev pub config_base : ℕ → ℕ
config_base dev_id = if ltb dev_id 2 then 0x1F0 else 0x170

abbrev pub config_drive : ℕ → ℕ
config_drive dev_id = dev_id % 2

-- `info.size`: the words 60 and 61, or the geometry if they are 0.
unfoldable pub identify_size : (ℕ → ℕ) → ℕ
identify_size buf =
    let size = buf 60 % 2 ^ 16 + 2 ^ 16 * (buf 61 % 2 ^ 16) in
    if size == 0 then (buf 1 % 2 ^ 16) * (buf 3 % 2 ^ 16) * (buf 6 % 2 ^ 16) % 2 ^ 32 else size

-- The device, if there is one, the number of status reads after it, and the events.
unfoldable pub hd_detect_device :
    (ℕ → ℕ) → (ℕ → ℕ → ℕ) → ℕ → ℕ → Option IdeDevice × ℕ × List IdeEvent
hd_detect_device status words dev_id n =
    let base = config_base dev_id in
    let asked = outb base 6 (drive_sel (config_drive dev_id)) ∷ outb base 7 0xEC ∷ [] in
    let (data_ready, n1) = hd_wait_data_on_base status hd_timeout (n + 5) in
    if (status (n + 4) == 0) || (status (n + 4) == 0xFF)
    then (none, n + 5, asked)
    else if not data_ready
    then (none, n1, asked)
    else (
      some (record {
        channel = config_channel dev_id;
        drive = config_drive dev_id;
        base = base;
        irq = config_irq dev_id;
        size = identify_size (words dev_id);
        cylinders = words dev_id 1 % 2 ^ 16;
        heads = words dev_id 3 % 2 ^ 16;
        sectors = words dev_id 6 % 2 ^ 16;
        present = true;
        name = config_name dev_id;
      }),
      n1,
      asked ++ insw base 0 256 ∷ [],
    )

abbrev pub detected : Option IdeDevice → ℕ
detected none = 0
detected (some dev) = 1

-- The loop of `hd_init` from device `dev_id` on, with `count` to go: the devices and their number.
unfoldable pub detect_devices : (ℕ → ℕ) → (ℕ → ℕ → ℕ) → ℕ → ℕ → ℕ → List (Option IdeDevice) × ℕ
detect_devices status words dev_id zero n = ([], 0)
detect_devices status words dev_id (suc count) n =
    let (dev, n1, events) = hd_detect_device status words dev_id n in
    let (devs, num_devices) = detect_devices status words (dev_id + 1) count n1 in
    (dev ∷ devs, detected dev + num_devices)

unfoldable pub hd_init : (ℕ → ℕ) → (ℕ → ℕ → ℕ) → List (Option IdeDevice) × ℕ
hd_init status words = detect_devices status words 0 max_ide_devices 0

-- `hd_get_device`, on what `hd_init` found.
abbrev pub hd_get_device : List (Option IdeDevice) → ℕ → Option IdeDevice
hd_get_device [] dev_id = none
hd_get_device (dev ∷ devs) zero = dev
hd_get_device (dev ∷ devs) (suc dev_id) = hd_get_device devs dev_id

abbrev all_detected : List (Option IdeDevice) → ℕ
all_detected [] = 0
all_detected (dev ∷ devs) = detected dev + all_detected devs

detect_devices-count :
    (status : ℕ → ℕ) (words : ℕ → ℕ → ℕ) (dev_id count n : ℕ)
    → ((detect_devices status words dev_id count n).1
        ≡ all_detected (detect_devices status words dev_id count n).0)
      × (length (detect_devices status words dev_id count n).0 ≡ count)
unfolding detect_devices
detect_devices-count status words dev_id zero n = (refl, refl)
detect_devices-count status words dev_id (suc count) n =
    let dev = (hd_detect_device status words dev_id n).0 in
    let n1 = (hd_detect_device status words dev_id n).1 in
    let (counted, all) = detect_devices-count status words (dev_id + 1) count n1 in
    (ap (λ k. detected dev + k) counted, ap suc all)

-- The number of devices is the number of those that were detected, among the four looked for.
pub hd_init-count :
    (status : ℕ → ℕ) (words : ℕ → ℕ → ℕ)
    → ((hd_init status words).1 ≡ all_detected (hd_init status words).0)
      × (length (hd_init status words).0 ≡ 4)
unfolding hd_init
hd_init-count status words = detect_devices-count status words 0 4 0
