-- ===== src/Shell/Editor.antt =====
-- `Update` and `Execute` of src/src/classes/shell.class.h.
use shiro.Shell.Bars.{prompt, render_header, start_terminal_footer}
use shiro.Shell.{Shell, update_screen, write_c_echo, write_f}
use shiro.CString.{concat}
use shiro.Keyboard.{Keyboard, was_updated_read, get_function_key, buffer_reset}
use shiro.Base.{
  ℕ, Bool, false, not, ◌&&◌, ◌||◌, List, [], ◌∷◌, length, take, ltb, ◌==◌, if◌then◌else◌,
}

-- Whether the buffer holds an end of line.
abbrev pub has_newline : List ℕ → Bool
has_newline [] = false
has_newline (c ∷ s) = (c == 10) || has_newline s

-- The buffer without an end of line at its end.
abbrev pub strip : List ℕ → List ℕ
strip [] = []
strip (c ∷ []) = if c == 10 then [] else c ∷ []
strip (c ∷ d ∷ s) = c ∷ strip (d ∷ s)

module _ (dispatch : List ℕ → Shell → Shell) where
  -- `Shell::Execute`, with what the dispatcher does to the shell.
  unfoldable pub execute : List ℕ → Shell → Shell
  execute command s = if length command == 0 then s else dispatch command s

  -- The part of `Shell::Update` that runs a line.
  unfoldable pub run_line : Keyboard → Shell → Shell × Keyboard
  run_line kb s =
      let command = take 50 (strip kb.buffer) in
      let kb' = buffer_reset kb in
      let ran = execute command (write_c_echo (concat prompt command) s) in
      (update_screen 0 (start_terminal_footer 0 ran), kb')

  -- The part of `Shell::Update` that switches the terminal.
  unfoldable pub switch_terminal : ℕ → ℕ → Shell → Shell
  switch_terminal size key s =
      if ltb 0 key
      then update_screen size (render_header (record s { current_terminal = key }))
      else s

  -- `Shell::Update`.
  unfoldable pub update : Keyboard → Shell → Shell × Keyboard
  update kb s =
      let size = length kb.buffer in
      let read = was_updated_read kb in
      let key = get_function_key read.1 in
      let switched = switch_terminal size key.0 s in
      if not read.0
      then (switched, key.1)
      else (let cleared = start_terminal_footer size switched in
          if has_newline kb.buffer && ltb 1 size
          then run_line key.1 cleared
          else (write_f size kb.buffer cleared, key.1))
