-- ===== src/Console.antt =====
-- The keyboard, the shell and the commands together (src/src/classes/keyboard.class.h,
-- src/src/classes/shell.class.h, src/src/classes/commands.class.h), with the loop of
-- src/src/kernel.cpp: bytes from the keyboard and rounds of the shell, in any order.
pub mod Rows
pub mod Session
pub mod Typing
pub mod Lines
mod Tests
use shiro.Keyboard.{Keyboard, handler}
use shiro.Shell.{Shell}
use shiro.Shell.Editor.{update}
use shiro.Commands.Run.{World, dispatch_on}
use shiro.Base.{ℕ, List, [], ◌∷◌, Option, none, some}

-- A byte from the keyboard, by its interrupt, or a round of the shell in the loop of the kernel's task,
-- with what the commands read in it.
pub data Event : Type 0 where
  byte : ℕ → Event
  round : World → Event

-- `none`: the driver has written past its buffer.
unfoldable pub run : List Event → Shell → Keyboard → Option (Shell × Keyboard)
run [] s kb = some (s, kb)
run (byte sc ∷ es) s kb = elim (handler 1 sc kb) [ none ↦ none | some kb' ↦ run es s kb' ]
run (round w ∷ es) s kb = run es (update (dispatch_on w) kb s).0 (update (dispatch_on w) kb s).1
