-- ===== src/Screen.antt =====
-- src/src/classes/shell.class.h: the content rows of the current terminal, rows 2 to 23 of 25.
pub mod Scroll
pub mod Lines
use shiro.Devices.Vga.{set_color}
use shiro.Base.{
  ℕ, zero, suc, ◌+◌, ◌-◌, ◌*◌, ◌/◌, Bool, true, false, List, [], ◌∷◌, leb, ◌==◌, if◌then◌else◌,
}

abbrev pub screen_width : ℕ
screen_width = 80

-- The starting points that `Shell::Start` computes, with one row each for header, status and footer.
abbrev pub content_starting_point : ℕ
content_starting_point = 160

abbrev pub footer_starting_point : ℕ
footer_starting_point = 1920

abbrev pub content_size : ℕ
content_size = 1920

abbrev pub Cells : Type 0
Cells = ℕ → ℕ

-- The current terminal's cells and the cursor.
pub record Screen : Type 0 where
  pub cells : Cells
  pub content_current_x : ℕ
  pub content_current_y : ℕ
  pub terminal_color : ℕ

abbrev pub put : Cells → ℕ → ℕ → Cells
put m i v j = if j == i then v else m j

abbrev pub blank : Screen → ℕ
blank s = set_color 32 s.terminal_color

-- A loop that writes `v` to the `n` cells from `pos`.
pub fill : ℕ → ℕ → ℕ → Cells → Cells
fill zero pos v m = m
fill (suc n) pos v m = fill n (pos + 1) v (put m pos v)

-- `Shell::ClearTerminal`.
pub clear_terminal : Screen → Screen
clear_terminal s = record s {
  cells =
      fill (footer_starting_point - content_starting_point) content_starting_point (blank s)
        s.cells;
  content_current_x = 0;
  content_current_y = 0;
}

-- The inner loop of `Shell::Scroll`: `n` cells of a row, each from the row below.
pub copy_cells : ℕ → ℕ → ℕ → Cells → Cells
copy_cells zero row col m = m
copy_cells (suc n) row col m =
    copy_cells n row (col + 1)
      (put m (row * screen_width + col) (m ((row + 1) * screen_width + col)))

-- The outer loop: `n` rows.
pub copy_rows : ℕ → ℕ → Cells → Cells
copy_rows zero row m = m
copy_rows (suc n) row m = copy_rows n (row + 1) (copy_cells screen_width row 0 m)

-- `Shell::Scroll`.
pub scroll : Screen → Screen
scroll s =
    let first_row = content_starting_point / screen_width in
    let last_row = footer_starting_point / screen_width - 1 in
    record s {
      cells =
          fill screen_width (last_row * screen_width) (blank s)
            (copy_rows (last_row - first_row) first_row s.cells);
      content_current_x = 0;
    }

abbrev pub last_line : ℕ
last_line = footer_starting_point - screen_width

-- The loop of `Shell::WriteCColored`, with the index of the cell that was written last.
pub write_chars : List ℕ → ℕ → ℕ → Screen → Screen
write_chars [] color gi s = s
write_chars (c ∷ text) color gi s =
    let x = if leb (content_size - 2) gi then 0 else s.content_current_x in
    let newline = write_chars text color gi (scroll s) in
    let written = write_chars text color (last_line + x) (record s {
      cells = put s.cells (last_line + x) (set_color c color);
      content_current_x = x + 1;
    }) in
    if c == 10 then newline else written

-- `Shell::WriteC` and `Shell::WriteCEcho`, by the colour.
pub write_c : List ℕ → ℕ → Screen → Screen
write_c text color s = scroll (write_chars text color 0 s)
