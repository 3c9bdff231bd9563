-- ===== src/Kernel.antt =====
-- The kernel, kernel/.
pub mod Disk
pub mod Fs
pub mod Gdt
pub mod Task
pub mod Syscall
pub mod Timer
pub mod Ide
pub mod Idt
pub mod Crtc
pub mod Display
pub mod Keymap
pub mod Keyboard
pub mod Print
pub mod Lines
