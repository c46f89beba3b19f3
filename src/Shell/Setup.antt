-- ===== src/Shell/Setup.antt =====
-- `Start` and `Finish` of src/src/classes/shell.class.h.
use shiro.Shell.Bars.{
  render_header, render_status, start_terminal_footer, start_terminal_header, start_terminal_status,
}
use shiro.Shell.{content_color, Shell, update_screen, set_terminal, write_content}
use shiro.Devices.Vga.{set_color}
use shiro.Screen.{fill, content_starting_point, content_size}
use shiro.Base.{ℕ, ◌-◌, List, codes}

-- `Shell::StartTerminal`.
unfoldable pub start_terminal : ℕ → Shell → Shell
start_terminal id s =
    set_terminal id
      (fill (content_size - content_starting_point) content_starting_point
        (set_color 32 content_color) (s.terminal_screens id))
      s

-- The messages of `Shell::Finish`, which `echo` writes and shows.
abbrev loaded_text : List ℕ
loaded_text = codes "> SHIRO IS LOADED AND READY TO GO\n"

abbrev debug_text : List ℕ
debug_text = codes "> THE DEBUG TERMINAL IS LOADED AND READY TO GO\n"

abbrev pub echo_on : ℕ → ℕ → List ℕ → Shell → Shell
echo_on size id text s =
    update_screen size (write_content text (record s { current_terminal = id }))

-- `Shell::Finish`.
unfoldable pub finish : ℕ → Shell → Shell
finish size s =
    let one = echo_on size 1 loaded_text s in
    let two = echo_on size 2 loaded_text one in
    let three = echo_on size 3 loaded_text two in
    let four = echo_on size 4 loaded_text three in
    let five = echo_on size 5 debug_text four in
    update_screen size (record five { current_terminal = s.current_terminal })

-- `Shell::Start`, with the cells of the screen and of the buffers before.
unfoldable pub start : ℕ → Shell → Shell
start size s =
    let zeroed = record s {
      current_terminal = 1;
      header_current_x = 0;
      content_current_x = 0;
      footer_current_x = 0;
    } in
    let bars = start_terminal_status (start_terminal_header zeroed) in
    let terminals =
      start_terminal 5
        (start_terminal 4 (start_terminal 3 (start_terminal 2 (start_terminal 1 bars)))) in
    let shown = update_screen size (start_terminal_footer size terminals) in
    finish size (render_status (codes "booting...") (render_header (record shown { cursor_x = 7 })))
