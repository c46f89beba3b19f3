-- ===== src/Shell/Tests.antt =====
-- A shell and a keyboard, for the theorems on src/src/classes/shell.class.h.
use shiro.Keyboard.{Keyboard}
use shiro.Shell.{Shell, update_screen, write_c_echo, write_content}
use shiro.Shell.Bars.{start_terminal_footer, prompt}
use shiro.Shell.Editor.{update}
use shiro.Shell.Rows.{footer_row}
use shiro.Shell.Edits.{update-edits}
use shiro.Shell.Prompt.{chosen, update-runs}
use shiro.Shell.Steps.{IsLive, here, next, turn, Reach-IsLive}
use shiro.Base.{ℕ, ◌+◌, ◌<◌, ◌≡◌, refl, true, false, List, [], ◌++◌, codes, arith}

abbrev shell : Shell
shell = record {
  screen = λ j. 0;
  terminal_screen_header = λ j. 0;
  terminal_screen_status = λ j. 0;
  terminal_screen_footer = λ j. 0;
  terminal_screens = λ i j. 0;
  current_terminal = 1;
  header_current_x = 0;
  content_current_x = 0;
  footer_current_x = 0;
  cursor_x = 0;
}

-- A keyboard with a line, and F3 pressed.
abbrev typed : List ℕ → Keyboard
typed line = record {
  buffer = line;
  was_updated = true;
  function_key = 3;
  shift_pressed = false;
  ctrl_pressed = false;
  alt_pressed = false;
  caps_lock = false;
  extended_prefix = false;
}

-- A dispatcher that prints what it is given.
abbrev show : List ℕ → Shell → Shell
show l s = write_content l s

update-edits_example :
    ((x : ℕ)
      → x < 80
      → (update show (typed (codes "ls")) shell).0.screen (1920 + x) ≡ footer_row (codes "ls") x)
    × ((update show (typed (codes "ls")) shell).0.terminal_screens ≡ shell.terminal_screens)
    × ((update show (typed (codes "ls")) shell).0.current_terminal ≡ chosen 3 1)
    × ((update show (typed (codes "ls")) shell).1.buffer ≡ codes "ls")
    × ((update show (typed (codes "ls")) shell).1.function_key ≡ 0)
update-edits_example =
    update-edits show (typed (codes "ls")) shell (λ j low. ground arith) refl (omega arith)

update-runs_example :
    (t : Shell) × (t.terminal_screens ≡ shell.terminal_screens)
    × (t.current_terminal ≡ chosen 3 1)
    × (t.content_current_x ≡ 0)
    × ((update show (typed (codes "ls\n")) shell).0
        ≡ update_screen 0
            (start_terminal_footer 0 (show (codes "ls") (write_c_echo (prompt ++ codes "ls") t))))
    × ((update show (typed (codes "ls\n")) shell).1.buffer ≡ [])
update-runs_example =
    update-runs show (typed (codes "ls\n")) shell (codes "ls") refl refl
      (λ e. absurd (ground (arith, e))) (omega arith)

keeps : (l : List ℕ) (t : Shell) → (show l t).current_terminal ≡ t.current_terminal
unfolding write_content
keeps l t = refl

live : IsLive show keeps (shell, typed (codes "ls\n"))
live = record {
  coherent = λ j h. ground arith;
  lowest = omega arith;
  highest = omega arith;
  line = record { short = omega arith; key = omega arith };
}

Reach-IsLive_example : IsLive show keeps (update show (typed (codes "ls\n")) shell)
Reach-IsLive_example = Reach-IsLive show keeps live (next here (turn shell (typed (codes "ls\n"))))
