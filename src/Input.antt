-- ===== src/Input.antt =====
-- kernel-x86/src/interrupts.rs, keyboard.rs and mouse.rs: input events, from the bytes of the
-- keyboard and the mouse to the queue that programs read.
pub mod Ring
pub mod Keyboard
pub mod Mouse
pub mod Interrupt
