-- ===== src/Examples/Devices.antt =====
-- Concrete disks for kern/drivers/hd.c and kern/drivers/blk.c.
use zonix.Prelude.{◌==◌, if◌then◌else◌, codes, ℕ, true, Option, none, some, List}
use zonix.Drivers.Hd.{IdeDevice}
use zonix.Drivers.Hd.SelfTest.{pattern}

abbrev disk : IdeDevice
disk = record {
  channel = 0;
  drive = 1;
  base = 0x1F0;
  irq = 14;
  size = 1000;
  cylinders = 10;
  heads = 10;
  sectors = 10;
  present = true;
  name = codes "hdb";
}

-- A drive that is always ready and always has data.
abbrev good_status : ℕ → ℕ
good_status n = 0x48

abbrev named : List ℕ → ℕ → IdeDevice
named name size = record {
  channel = 0;
  drive = 0;
  base = 0x1F0;
  irq = 14;
  size = size;
  cylinders = 10;
  heads = 10;
  sectors = 10;
  present = true;
  name = name;
}

-- The disks 0 and 2 are there.
abbrev two_disks : ℕ → Option IdeDevice
two_disks i =
    if i == 0
    then some (named (codes "hda") 1000)
    else if i == 2
    then some (named (codes "hdc") 3000)
    else none

-- A drive that gives a wrong byte at place 7.
abbrev one_wrong : ℕ → ℕ → ℕ
one_wrong dev_id i = if i == 7 then 0 else pattern dev_id i
