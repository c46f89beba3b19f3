-- ===== src/Text.antt =====
-- src/src/classes/commands.class.h: the text that the commands print and read. A string is the list
-- of its characters, and the result of a routine is the string that it leaves in its buffer.
pub mod Box
pub mod Numbers
pub mod Dispatch
mod Tests
