-- ===== src/BootInfo.antt =====
-- The boot information that GRUB hands over, beside the memory map of Pmm.antt: each child reads one
-- part of it with the walk of Tags.antt.
pub mod Initrd
pub mod Files
pub mod Modules
pub mod Multiboot
pub mod Totals
mod Tests
