-- ===== src/Keyboard.antt =====
-- src/src/classes/keyboard.class.h: `System::Drivers::Keyboard`, the PS/2 driver and its line buffer.
pub mod Layout
pub mod Typing
mod Tests
use shiro.CString.{concat, strcpy}
use shiro.Base.{
  ℕ, zero, suc, ◌+◌, ◌-◌, ◌*◌, ◌/◌, ◌%◌, ◌<◌, ◌≤◌, ◌≡◌, Bool, true, false, not, ◌&&◌, ◌||◌, Option,
  none, some, List, [], ◌∷◌, length, get_or, take, ltb, leb, ◌==◌, if◌then◌else◌,
}

abbrev pub buffer_bytes : ℕ
buffer_bytes = 50

abbrev pub backspace : ℕ
backspace = 8

abbrev pub enter : ℕ
enter = 10

-- The static members of `Keyboard`. The buffer is the string that it holds.
pub record Keyboard : Type 0 where
  pub buffer : List ℕ
  pub was_updated : Bool
  pub function_key : ℕ
  pub shift_pressed : Bool
  pub ctrl_pressed : Bool
  pub alt_pressed : Bool
  pub caps_lock : Bool
  pub extended_prefix : Bool

abbrev pub unshifted_table : List ℕ
unshifted_table =
    0 ∷ 27 ∷ 49 ∷ 50 ∷ 51 ∷ 52 ∷ 53 ∷ 54 ∷ 55 ∷ 56 ∷ 57 ∷ 48 ∷ 45 ∷ 61 ∷ 8 ∷ 9 ∷ 113 ∷ 119 ∷ 101
    ∷ 114 ∷ 116 ∷ 121 ∷ 117 ∷ 105 ∷ 111 ∷ 112 ∷ 91 ∷ 93 ∷ 10 ∷ 0 ∷ 97 ∷ 115 ∷ 100 ∷ 102 ∷ 103 ∷ 104
    ∷ 106 ∷ 107 ∷ 108 ∷ 59 ∷ 39 ∷ 96 ∷ 0 ∷ 92 ∷ 122 ∷ 120 ∷ 99 ∷ 118 ∷ 98 ∷ 110 ∷ 109 ∷ 44 ∷ 46 ∷ 47
    ∷ 0 ∷ 42 ∷ 0 ∷ 32 ∷ []

abbrev pub shifted_table : List ℕ
shifted_table =
    0 ∷ 27 ∷ 33 ∷ 64 ∷ 35 ∷ 36 ∷ 37 ∷ 94 ∷ 38 ∷ 42 ∷ 40 ∷ 41 ∷ 95 ∷ 43 ∷ 8 ∷ 9 ∷ 81 ∷ 87 ∷ 69 ∷ 82
    ∷ 84 ∷ 89 ∷ 85 ∷ 73 ∷ 79 ∷ 80 ∷ 123 ∷ 125 ∷ 10 ∷ 0 ∷ 65 ∷ 83 ∷ 68 ∷ 70 ∷ 71 ∷ 72 ∷ 74 ∷ 75 ∷ 76
    ∷ 58 ∷ 34 ∷ 126 ∷ 0 ∷ 124 ∷ 90 ∷ 88 ∷ 67 ∷ 86 ∷ 66 ∷ 78 ∷ 77 ∷ 60 ∷ 62 ∷ 63 ∷ 0 ∷ 42 ∷ 0 ∷ 32
    ∷ []

-- `Keyboard::Unshifted` and `Keyboard::Shifted`: 0 for a key without a character.
unfoldable pub unshifted : ℕ → ℕ
unshifted code = get_or unshifted_table code 0

unfoldable pub shifted : ℕ → ℕ
shifted code = get_or shifted_table code 0

-- The character of a key under Shift and Caps Lock.
unfoldable pub key_char : Bool → Bool → ℕ → ℕ
key_char shift caps code =
    let c = if shift then shifted code else unshifted code in
    if caps && leb 97 c && leb c 122
    then c - 32
    else if caps && leb 65 c && leb c 90
    then c + 32
    else c

-- `Keyboard::BufferRemoveOne`.
pub buffer_remove_one : Keyboard → Keyboard
buffer_remove_one s = record s { buffer = take (length s.buffer - 1) s.buffer; was_updated = true }

-- `Keyboard::BufferAdd`. The test `command != linebreak` compares two different arrays, so it holds
-- for every command. A string that does not fit in the buffer is written past its end: `none`.
pub buffer_add : Keyboard → List ℕ → Option Keyboard
buffer_add s command =
    if leb 50 (length s.buffer)
    then some s
    else elim (strcpy buffer_bytes
        (if ltb 0 (length s.buffer) then concat s.buffer command else command)) [
          | none ↦ none
          | some text ↦ some (record s { buffer = text; was_updated = true })
        ]

-- `Keyboard::BufferReset`.
unfoldable pub buffer_reset : Keyboard → Keyboard
buffer_reset s = record s { buffer = []; was_updated = true }

-- `Keyboard::WasUpdated`, which also clears the flag.
unfoldable pub was_updated_read : Keyboard → Bool × Keyboard
was_updated_read s = (s.was_updated, if s.was_updated then record s { was_updated = false } else s)

-- `Keyboard::GetFunctionKey`, which also clears the key.
unfoldable pub get_function_key : Keyboard → ℕ × Keyboard
get_function_key s = (s.function_key, record s { function_key = 0 })

-- The end of `Keyboard::Handler`, for a key that has the character `c`.
pub put_char : Keyboard → ℕ → Option Keyboard
put_char s c =
    if c == 0
    then some s
    else if c == backspace
    then some (if ltb 0 (length s.buffer) then buffer_remove_one s else s)
    else if (c == enter) && (length s.buffer == 0)
    then some s
    else buffer_add s (c ∷ [])

-- `Keyboard::Handler` after the prefix: modifiers, then the keys that act on a press.
unfoldable pub press : Keyboard → Bool → ℕ → Option Keyboard
press s released code =
    if (code == 0x2A) || (code == 0x36)
    then some (record s { shift_pressed = not released })
    else if code == 0x1D
    then some (record s { ctrl_pressed = not released })
    else if code == 0x38
    then some (record s { alt_pressed = not released })
    else if code == 0x3A
    then some (if released then s else record s { caps_lock = not s.caps_lock })
    else if released
    then some s
    else if leb 0x3B code && leb code 0x3F
    then some (record s { function_key = code - 0x3A })
    else put_char s (key_char s.shift_pressed s.caps_lock code)

-- `Keyboard::Handler`, given what the ports 0x64 and 0x60 read.
unfoldable pub handler : ℕ → ℕ → Keyboard → Option Keyboard
handler status sc s =
    if not (status % 2 == 1)
    then some s
    else if sc == 0xE0
    then some (record s { extended_prefix = true })
    else if s.extended_prefix
    then some (record s { extended_prefix = false })
    else press s (leb 0x80 sc) (sc % 0x80)
