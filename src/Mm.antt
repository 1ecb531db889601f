-- ===== src/Mm.antt =====
-- kern/mm: physical pages and page replacement.
pub mod Page
pub mod FirstFit
pub mod Swap
pub mod PageTable
pub mod SwapSpace
pub mod Vmm
pub mod Setup
