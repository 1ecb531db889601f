-- ===== src/Drivers.antt =====
-- kern/drivers: the screen, the IDE disks, the block devices, the interrupt controller, the timer and the
-- keyboard.
pub mod Cga
pub mod Hd
pub mod Blk
pub mod Pic
pub mod Kdb
