-- ===== src/Cons.antt =====
-- kern/cons: formatted output, and the shell.
pub mod Stdio
pub mod Shell
pub mod Commands
