-- ===== src/Shell/Bars.antt =====
-- The header, the status bar and the prompt of src/src/classes/shell.class.h.
use shiro.Shell.{
  header_color, header_color_tab_active, header_color_tab_inactive, status_color, footer_color,
  status_starting_point, header_size, status_size, footer_size, Shell, put_text, write_f,
}
use shiro.Devices.Vga.{set_color}
use shiro.Screen.{Cells, put, fill, footer_starting_point}
use shiro.Base.{
  ℕ, zero, suc, ◌+◌, ◌-◌, List, [], ◌∷◌, ◌++◌, length, take, ◌==◌, if◌then◌else◌, codes,
}

-- `Shell::StartTerminalHeader` and `Shell::StartTerminalStatus`.
unfoldable pub start_terminal_header : Shell → Shell
start_terminal_header s = record s {
  terminal_screen_header = fill header_size 0 (set_color 32 header_color) s.terminal_screen_header;
}

unfoldable pub start_terminal_status : Shell → Shell
start_terminal_status s = record s {
  terminal_screen_status =
      fill (status_size - status_starting_point) status_starting_point (set_color 32 status_color)
        s.terminal_screen_status;
}

abbrev pub prompt : List ℕ
prompt = codes "Shiro> "

-- `Shell::StartTerminalFooter`.
unfoldable pub start_terminal_footer : ℕ → Shell → Shell
start_terminal_footer size s = write_f size prompt (record s {
  terminal_screen_footer =
      fill (footer_size - footer_starting_point) footer_starting_point (set_color 32 footer_color)
        s.terminal_screen_footer;
  footer_current_x = 0;
})

-- One tab of `Shell::RenderHeader`, from column `col` on, and the blank behind it.
abbrev pub tab_text : ℕ → List ℕ
tab_text tab = 91 ∷ (48 + tab) ∷ ((if tab == 5 then codes " dbg" else codes " term") ++ 93 ∷ [])

abbrev pub tab_color : ℕ → ℕ → ℕ
tab_color current_terminal tab =
    if tab == current_terminal then header_color_tab_active else header_color_tab_inactive

-- The loop over the tabs, with `n` left.
unfoldable pub render_tabs : ℕ → ℕ → ℕ → ℕ → Cells → Cells
render_tabs zero tab col current_terminal m = m
render_tabs (suc n) tab col current_terminal m =
    let text = tab_text tab in
    let next = col + length text in
    render_tabs n (tab + 1) (next + 1) current_terminal
      (put (put_text (tab_color current_terminal tab) col text m) next (set_color 32 header_color))

-- `Shell::RenderHeader`.
unfoldable pub render_header : Shell → Shell
render_header s =
    let background = fill 64 0 (set_color 32 header_color) s.terminal_screen_header in
    let title = put_text header_color 0 (codes " Shiro 0.5  ") background in
    let separator = put title 12 (set_color 0xB3 header_color) in
    record s { terminal_screen_header = render_tabs 5 1 14 s.current_terminal separator }

-- `Shell::RenderStatus`: the text is cut before the last column.
unfoldable pub render_status : List ℕ → Shell → Shell
render_status text s =
    let background =
      fill (status_size - status_starting_point) status_starting_point (set_color 32 status_color)
        s.terminal_screen_status in
    record s {
      terminal_screen_status =
          put_text status_color (status_starting_point + 1) (take 78 text) background;
    }

-- `Shell::WriteSAt`.
unfoldable pub write_s_at : List ℕ → ℕ → Shell → Shell
write_s_at text x s = record s {
  terminal_screen_status =
      put_text status_color (status_starting_point + x) (take (80 - x) text)
        s.terminal_screen_status;
}
