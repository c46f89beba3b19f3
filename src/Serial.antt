-- ===== src/Serial.antt =====
-- src/src/classes/debug.class.h and src/src/libs/helper/debug.h: `System::Debug`, the log on the serial
-- port.
pub mod Messages
mod Tests
use shiro.Devices.Pic.{Writes}
use shiro.Panic.{int2char}
use shiro.Base.{ℕ, List, [], ◌∷◌, ◌++◌, Option, none, some, ◌>>=◌}

abbrev pub serial_port : ℕ
serial_port = 0x3F8

-- An argument of `log`: a text, an `int` that is not negative, or `- 1 - n`.
pub data Value : Type 0 where
  text : List ℕ → Value
  number : ℕ → Value
  negative : ℕ → Value

-- `Debug::Prepare`. `int2char` of a negative number takes its digits from in front of their table, which
-- is undefined: `none`.
unfoldable pub prepare : Value → Option (List ℕ)
prepare (text s) = some s
prepare (number n) = some (int2char n)
prepare (negative n) = none

-- The loop of `Debug::Log`.
unfoldable pub send : List ℕ → Writes
send [] = []
send (c ∷ s) = (serial_port, c) ∷ send s

-- `Debug::Log` of one value and of several, which `log` calls.
unfoldable pub log : Value → List Value → Option Writes
log v [] = do s ← prepare v; some (send s ++ (serial_port, 13) ∷ (serial_port, 10) ∷ [])
log v (x ∷ rest) = do s ← prepare v; writes ← log x rest; some (send s ++ writes)
