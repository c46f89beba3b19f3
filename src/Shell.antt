-- ===== src/Shell.antt =====
-- src/src/classes/shell.class.h: `Applications::Shell`, its four buffers and the screen that they make
-- up. Screen.antt has the content rows of the current terminal.
pub mod Bars
pub mod Setup
pub mod Editor
pub mod View
pub mod Rows
pub mod Tabs
pub mod Prompt
pub mod Edits
pub mod Steps
mod Tests
use shiro.Devices.Vga.{set_color, select_colors}
use shiro.Screen.{
  Screen, Cells, put, fill, screen_width, content_starting_point, footer_starting_point,
  content_size, scroll, write_c, clear_terminal,
}
use shiro.CString.{concat}
use shiro.Keyboard.{Keyboard, was_updated_read, get_function_key, buffer_reset}
use shiro.Base.{
  ℕ, zero, suc, ◌+◌, ◌-◌, ◌*◌, Bool, true, false, not, ◌&&◌, ◌||◌, List, [], ◌∷◌, ◌++◌, length,
  take, ltb, leb, ◌==◌, if◌then◌else◌, codes,
}

-- The colours that `Shell::Start` chooses, by the numbers of the enumeration in
-- src/src/classes/vga.class.h.
abbrev pub header_color : ℕ
header_color = select_colors 15 1

abbrev pub header_color_tab_active : ℕ
header_color_tab_active = select_colors 0 15

abbrev pub header_color_tab_inactive : ℕ
header_color_tab_inactive = select_colors 7 1

abbrev pub status_color : ℕ
status_color = select_colors 0 7

abbrev pub content_color : ℕ
content_color = select_colors 7 0

abbrev pub terminal_color_echo : ℕ
terminal_color_echo = select_colors 14 0

abbrev pub footer_color : ℕ
footer_color = select_colors 10 0

abbrev pub status_starting_point : ℕ
status_starting_point = 80

abbrev pub header_size : ℕ
header_size = 80

abbrev pub status_size : ℕ
status_size = 160

abbrev pub footer_size : ℕ
footer_size = 2000

-- The members of `Shell` that change, and the column of the hardware cursor in row 24.
pub record Shell : Type 0 where
  pub screen : Cells
  pub terminal_screen_header : Cells
  pub terminal_screen_status : Cells
  pub terminal_screen_footer : Cells
  pub terminal_screens : ℕ → Cells
  pub current_terminal : ℕ
  pub header_current_x : ℕ
  pub content_current_x : ℕ
  pub footer_current_x : ℕ
  pub cursor_x : ℕ

-- A loop that copies `n` cells from `pos` on.
unfoldable pub copy_range : ℕ → ℕ → Cells → Cells → Cells
copy_range zero pos src dst = dst
copy_range (suc n) pos src dst = copy_range n (pos + 1) src (put dst pos (src pos))

-- `Shell::UpdateScreen`, with the size of the keyboard's buffer.
unfoldable pub update_screen : ℕ → Shell → Shell
update_screen size s =
    let a = copy_range header_size 0 s.terminal_screen_header s.screen in
    let b =
      copy_range (status_size - status_starting_point) status_starting_point
        s.terminal_screen_status a in
    let c =
      copy_range (content_size - content_starting_point) content_starting_point
        (s.terminal_screens s.current_terminal) b in
    let d =
      copy_range (footer_size - footer_starting_point) footer_starting_point
        s.terminal_screen_footer c in
    record s { screen = d; cursor_x = size + 7 }

-- A loop that writes the characters of a text from `pos` on, in one colour.
unfoldable pub put_text : ℕ → ℕ → List ℕ → Cells → Cells
put_text color pos [] m = m
put_text color pos (c ∷ text) m = put_text color (pos + 1) text (put m pos (set_color c color))

-- A terminal's cells replaced.
abbrev pub set_terminal : ℕ → Cells → Shell → Shell
set_terminal id m s = record s {
  terminal_screens = λ i. if i == id then m else s.terminal_screens i;
}

-- What Screen.antt does to the current terminal.
abbrev pub current : Shell → Screen
current s = record {
  cells = s.terminal_screens s.current_terminal;
  content_current_x = s.content_current_x;
  content_current_y = 0;
  terminal_color = content_color;
}

abbrev pub on_current : (Screen → Screen) → Shell → Shell
on_current f s = record (set_terminal s.current_terminal (f (current s)).cells s) {
  content_current_x = (f (current s)).content_current_x;
}

-- `Shell::WriteC` and `Shell::WriteCEcho` with `update` false.
unfoldable pub write_content : List ℕ → Shell → Shell
write_content text s = on_current (write_c text content_color) s

unfoldable pub write_c_echo : List ℕ → Shell → Shell
write_c_echo text s = on_current (write_c text terminal_color_echo) s

-- `Shell::WriteD`: a line on terminal 5, whichever is shown.
unfoldable pub write_d : ℕ → List ℕ → Shell → Shell
write_d size text s =
    update_screen size (record (write_content text (record s { current_terminal = 5 })) {
      current_terminal = s.current_terminal;
    })

-- The loop of `Shell::WriteF`, with the index of the cell that was written last.
unfoldable pub footer_chars : List ℕ → ℕ → Shell → Shell
footer_chars [] gi s = s
footer_chars (c ∷ text) gi s =
    let x = if leb (footer_size - 1) gi then 0 else s.footer_current_x in
    footer_chars text (footer_starting_point + x) (record s {
      terminal_screen_footer =
          put s.terminal_screen_footer (footer_starting_point + x) (set_color c footer_color);
      footer_current_x = x + 1;
    })

-- `Shell::WriteF`.
unfoldable pub write_f : ℕ → List ℕ → Shell → Shell
write_f size text s = update_screen size (footer_chars text 0 s)

-- The loop of `Shell::WriteH`, and `Shell::WriteToH`, which does not refresh the screen.
unfoldable pub header_chars : List ℕ → ℕ → Shell → Shell
header_chars [] gi s = s
header_chars (c ∷ text) gi s =
    let x = if leb (header_size - 1) gi then 0 else s.header_current_x in
    header_chars text x (record s {
      terminal_screen_header = put s.terminal_screen_header x (set_color c header_color);
      header_current_x = x + 1;
    })

unfoldable pub write_to_h : List ℕ → ℕ → Shell → Shell
write_to_h text x s = record (header_chars text 0 (record s { header_current_x = x - 1 })) {
  header_current_x = s.header_current_x;
}
