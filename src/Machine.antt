-- ===== src/Machine.antt =====
-- Class machine of libvx68k/machine.cc: the address space, the keyboard with its IOCS calls and the
-- key events of the console, the floppy drives and the boot, and the exceptions of a run.
pub mod AddressMap
pub mod Keyboard
pub mod Drives
pub mod Faults
mod Examples
