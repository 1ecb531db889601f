-- ===== src/Arch.antt =====
-- Descriptor tables and the timer of the machine.
pub mod Gates
pub mod Segments
pub mod Pit
