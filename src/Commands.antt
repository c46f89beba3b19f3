-- ===== src/Commands.antt =====
-- src/src/classes/commands.class.h: what the commands print. A command is a function from the state
-- that it reads to the lines that it hands to `Print`.
pub mod Lines
pub mod Kernel
pub mod Memory
pub mod Files
pub mod Wrap
pub mod Width
pub mod Readings
pub mod Run
mod Tests
