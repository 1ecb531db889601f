-- ===== src/Examples.antt =====
-- The theorems at concrete inputs.
pub mod Memory
pub mod Console
pub mod Devices
pub mod Tasks
pub mod Processes
pub mod Boot
pub mod Traps
pub mod Paging
pub mod Swapping
pub mod Machine
pub mod Kernel
