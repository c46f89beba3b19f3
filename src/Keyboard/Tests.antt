-- ===== src/Keyboard/Tests.antt =====
-- Runs of the driver of src/src/classes/keyboard.class.h, and concrete inputs to its theorems.
use shiro.CString.{concat, strcpy}
use shiro.Base.{◌≡◌, refl, true, false, ◌↔◌, some, none, [], ◌∷◌, length, replicate, arith}
use shiro.Keyboard.{Keyboard, handler, press, put_char, buffer_add, key_char, shifted}
use shiro.Keyboard.Typing.{IsLine, types, handler-none, handler_backspace}

-- Shift is held, and the line is `ls`.
abbrev holding : Keyboard
holding = record {
  buffer = 108 ∷ 115 ∷ [];
  was_updated = false;
  function_key = 0;
  shift_pressed = true;
  ctrl_pressed = false;
  alt_pressed = false;
  caps_lock = false;
  extended_prefix = false;
}

abbrev full_line : Keyboard
full_line = record holding { buffer = replicate 49 97 }

-- The scancode of `a`, with Shift.
types_a :
    handler 1 0x1E holding
    ≡ some (record holding { buffer = 108 ∷ 115 ∷ 65 ∷ []; was_updated = true })
unfolding handler press put_char buffer_add concat strcpy key_char shifted
types_a = refl

holding-IsLine : IsLine holding
holding-IsLine = record { short = omega arith; key = omega arith }

full_line-IsLine : IsLine full_line
full_line-IsLine = record { short = omega arith; key = omega arith }

handler-none_example :
    (handler 1 0x1E full_line ≡ none)
    ↔ ((types full_line 1 0x1E ≡ true) × (length full_line.buffer ≡ 49))
handler-none_example = handler-none full_line 1 0x1E full_line-IsLine (omega arith)

-- The key of `a` on a line of 49 characters writes past the buffer.
overflow : handler 1 0x1E full_line ≡ none
unfolding types key_char shifted
overflow = handler-none_example.1 (refl, refl)

handler_backspace_example :
    (s' : Keyboard) × (handler 1 0x1E holding ≡ some s')
    × (s'.buffer ≡ 108 ∷ 115 ∷ key_char true false 0x1E ∷ [])
    × (handler 1 0x0E s' ≡ some (record holding { was_updated = true }))
unfolding types key_char shifted
handler_backspace_example = handler_backspace holding 1 0x1E (omega arith) refl
