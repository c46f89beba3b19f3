-- ===== src/Devices.antt =====
-- The small drivers and descriptor tables of src/src/classes: each child is one of them. A driver's
-- writes to ports are a list of (port, value), in order; what a port reads is an argument.
pub mod Pic
pub mod Gdt
pub mod Idt
pub mod Paging
pub mod Vga
pub mod Isr
pub mod Bios
mod Tests
