-- ===== src/Shell.antt =====
-- kernel-x86/src/shell.rs: the commands that a user types, on the state of the kernel.
pub mod Path
pub mod Find
pub mod Descend
pub mod Command
pub mod Args
pub mod Handle
pub mod Run
